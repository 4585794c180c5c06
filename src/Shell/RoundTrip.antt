-- ===== src/Shell/RoundTrip.antt =====
-- Every command of the shell (sh.c) is parsed from its text.
use ducko_unix.Prelude.{
  ℕ, zero, suc, ◌+◌, ◌*◌, ◌≤◌, ◌≡◌, refl, List, [], ◌∷◌, length, length-append, All, some, done,
  arith, ◌∙◌,
}
use ducko_unix.Shell.{
  contains, skip, Redir, Cmd, Cmd.exec, Cmd.redir, Cmd.pipe, Cmd.list, Cmd.back, wrap, Rule,
  Rule.pipeline, parse, parsecmd,
}
use ducko_unix.Shell.Print.{
  IsRedir, IsCmd, sign, print_word, print_words, print_redirs, Place, Place.whole, Place.left,
  Place.part, print,
}
use ducko_unix.Shell.Words.{Follows, after_simple}
use ducko_unix.Shell.Simple.{rest_bound, exec-print}
use ducko_unix.Shell.Places.{
  after_part, after_line, AsSimple, Parses, finish-list, pipe-part, simple→part, part→left,
  left→whole, whole→simple, AsPart, AsLeft, AsWhole,
}

exec-Parses : (argv : List (List ℕ)) → IsCmd (exec argv) → Parses (exec argv)
unfolding print AsSimple
exec-Parses argv (words, room) =
    let s : AsSimple (exec argv) = exec_simple in
    let p = simple→part (exec argv) (λ t. refl) s in
    let l = part→left (exec argv) (λ t. refl) p in
    record {
      as_simple = s;
      as_part = p;
      as_left = l;
      as_whole = left→whole (exec argv) (λ t. refl) l;
    }
  where
    exec_simple :
        (rs : List Redir) (tail : List ℕ) (fuel : ℕ)
        → All IsRedir rs
        → Follows after_simple tail
        → 3 * length (print Place.simple (exec argv) (print_redirs rs tail)) + 1 ≤ fuel
        → parse Rule.simple fuel (print Place.simple (exec argv) (print_redirs rs tail))
          ≡ done (some (wrap (exec argv) rs, tail))
    exec_simple rs tail zero redirs h enough = absurd (omega arith)
    exec_simple rs tail (suc fuel) redirs h enough =
        exec-print fuel argv rs tail words room redirs h

redir-Parses : (c : Cmd) (r : Redir) → IsRedir r → Parses c → Parses (redir c r)
unfolding print AsSimple
redir-Parses c r valid p =
    let s : AsSimple (redir c r) =
      λ rs tail fuel redirs h enough. p.as_simple (r ∷ rs) tail fuel (valid, redirs) h enough in
    let q = simple→part (redir c r) (λ t. refl) s in
    let l = part→left (redir c r) (λ t. refl) q in
    record {
      as_simple = s;
      as_part = q;
      as_left = l;
      as_whole = left→whole (redir c r) (λ t. refl) l;
    }

pipe-Parses : (c d : Cmd) → Parses c → Parses d → Parses (pipe c d)
unfolding print AsPart AsSimple contains
pipe-Parses c d p q =
    let t : AsPart (pipe c d) = piped in
    let l = part→left (pipe c d) (λ t. refl) t in
    let w = left→whole (pipe c d) (λ t. refl) l in
    record {
      as_simple = whole→simple (pipe c d) (λ t. refl) w;
      as_part = t;
      as_left = l;
      as_whole = w;
    }
  where
    piped :
        (tail : List ℕ) (fuel : ℕ)
        → Follows after_part tail
        → 3 * length (print part (pipe c d) tail) + 2 ≤ fuel
        → parse pipeline fuel (print part (pipe c d) tail) ≡ done (some (pipe c d, tail))
    piped tail zero h enough = absurd (omega arith)
    piped tail (suc fuel) h enough =
        let more = print part d tail in
        let text = print Place.simple c (124 ∷ more) in
        let first : parse Rule.simple fuel text ≡ done (some (c, 124 ∷ more)) =
          p.as_simple [] (124 ∷ more) fuel tt refl (omega arith) in
        let shorter = rest_bound Rule.simple fuel text (124 ∷ more) c (omega arith) first in
        pipe-part c d tail fuel text more first
          (q.as_part tail fuel h (omega (arith, enough, shorter)))

-- The text of a command is before what comes after it.
words-longer : (ws : List (List ℕ)) (tail : List ℕ) → length tail ≤ length (print_words ws tail)
words-longer [] tail = omega arith
words-longer (w ∷ ws) tail =
    omega (arith, words-longer ws tail, length-append w (32 ∷ print_words ws tail))

print-longer : (p : Place) (c : Cmd) (tail : List ℕ) → length tail ≤ length (print p c tail)
unfolding print
print-longer p (exec argv) tail = words-longer argv tail
print-longer p (redir c r) tail = omega (
  arith,
  print-longer Place.simple c (sign r ∷ print_word r.file tail),
  length-append r.file (32 ∷ tail),
)
print-longer Place.simple (pipe l r) tail = omega (
  arith,
  print-longer Place.simple l (124 ∷ print part r (41 ∷ tail)),
  print-longer part r (41 ∷ tail),
)
print-longer whole (pipe l r) tail =
    omega (arith, print-longer Place.simple l (124 ∷ print part r tail), print-longer part r tail)
print-longer left (pipe l r) tail =
    omega (arith, print-longer Place.simple l (124 ∷ print part r tail), print-longer part r tail)
print-longer part (pipe l r) tail =
    omega (arith, print-longer Place.simple l (124 ∷ print part r tail), print-longer part r tail)
print-longer whole (list l r) tail =
    omega (arith, print-longer left l (59 ∷ print whole r tail), print-longer whole r tail)
print-longer left (list l r) tail =
    omega (
      arith,
      print-longer left l (59 ∷ print whole r (41 ∷ tail)),
      print-longer whole r (41 ∷ tail),
    )
print-longer part (list l r) tail =
    omega (
      arith,
      print-longer left l (59 ∷ print whole r (41 ∷ tail)),
      print-longer whole r (41 ∷ tail),
    )
print-longer Place.simple (list l r) tail =
    omega (
      arith,
      print-longer left l (59 ∷ print whole r (41 ∷ tail)),
      print-longer whole r (41 ∷ tail),
    )
print-longer whole (back c) tail = omega (arith, print-longer left c (38 ∷ tail))
print-longer left (back c) tail = omega (arith, print-longer left c (38 ∷ tail))
print-longer part (back c) tail = omega (arith, print-longer left c (38 ∷ 41 ∷ tail))
print-longer Place.simple (back c) tail = omega (arith, print-longer left c (38 ∷ 41 ∷ tail))

list-Parses : (c d : Cmd) → Parses c → Parses d → Parses (list c d)
unfolding print AsLeft AsWhole contains
list-Parses c d p q =
    let w : AsWhole (list c d) = listed in
    let s = whole→simple (list c d) (λ t. refl) w in
    let t = simple→part (list c d) (λ t. refl) s in
    record {
      as_simple = s;
      as_part = t;
      as_left = part→left (list c d) (λ t. refl) t;
      as_whole = w;
    }
  where
    listed :
        (tail : List ℕ) (fuel : ℕ)
        → Follows after_line tail
        → 3 * length (print whole (list c d) tail) + 3 ≤ fuel
        → parse Rule.line fuel (print whole (list c d) tail) ≡ done (some (list c d, tail))
    listed tail zero h enough = absurd (omega arith)
    listed tail (suc fuel) h enough =
        let more = print whole d tail in
        p.as_left 0 (59 ∷ more) fuel refl (omega arith)
        ∙ finish-list c d tail fuel more
            (q.as_whole tail fuel h (omega (arith, enough, print-longer left c (59 ∷ more))))

back-Parses : (c : Cmd) → Parses c → Parses (back c)
unfolding print AsLeft
back-Parses c p =
    let l : AsLeft (back c) = λ n tail fuel h enough. p.as_left (suc n) tail fuel h enough in
    let w = left→whole (back c) (λ t. refl) l in
    let s = whole→simple (back c) (λ t. refl) w in
    record {
      as_simple = s;
      as_part = simple→part (back c) (λ t. refl) s;
      as_left = l;
      as_whole = w;
    }

cmd-Parses : (c : Cmd) → IsCmd c → Parses c
cmd-Parses (exec argv) h = exec-Parses argv h
cmd-Parses (redir c r) (h, valid) = redir-Parses c r valid (cmd-Parses c h)
cmd-Parses (pipe l r) (h, k) = pipe-Parses l r (cmd-Parses l h) (cmd-Parses r k)
cmd-Parses (list l r) (h, k) = list-Parses l r (cmd-Parses l h) (cmd-Parses r k)
cmd-Parses (back c) h = back-Parses c (cmd-Parses c h)

-- Every command of words, with fewer than ten arguments each and redirections of the two kinds,
-- is what `parsecmd` makes of its text.
pub parsecmd-print : (c : Cmd) → IsCmd c → parsecmd (print whole c []) ≡ done (some c)
unfolding parsecmd AsWhole skip
parsecmd-print c h =
    rw ((cmd-Parses c h).as_whole [] (3 * length (print whole c []) + 3) tt (omega arith)) refl
