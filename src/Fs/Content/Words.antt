-- ===== src/Fs/Content/Words.antt =====
-- Words of a block, and counts of the entries below a bound that pass a test.
use ducko_unix.Prelude.{
  ℕ, zero, suc, ◌+◌, ◌<◌, ◌==◌, ◌≡◌, ◌≢◌, refl, Bool, true, false, if◌then◌else◌, arith, ap, ◌∙◌,
  sym, Bool-cases, inl, inr,
}
use ducko_unix.Fs.Content.{get_word, put_word}

pub get_word-put_word :
    (bytes : ℕ → ℕ) (i v j : ℕ)
    → v < 4294967296
    → get_word (put_word bytes i v) j ≡ (if i == j then v else get_word bytes j)
unfolding get_word put_word
get_word-put_word bytes i v j h = elim (Bool-cases (i == j)) [
  | inl same ↦
      let here : i ≡ j = ground (arith, same) in
      rw same (ap (λ j. get_word (put_word bytes i v) j) (sym here) ∙ ground arith)
  | inr apart ↦ rw apart (ground (arith, apart))
]

unfoldable pub count : (ℕ → Bool) → ℕ → ℕ
count p zero = 0
count p (suc k) = (if p k then 1 else 0) + count p k

pub count_same : (p q : ℕ → Bool) (k : ℕ) → ((i : ℕ) → i < k → q i ≡ p i) → count q k ≡ count p k
unfolding count
count_same p q zero h = refl
count_same p q (suc k) h =
    ground (arith, h k (omega arith), count_same p q k (λ i lt. h i (omega arith)))

-- One entry fewer.
pub count_less :
    (p q : ℕ → Bool) (k n : ℕ)
    → n < k
    → p n ≡ true
    → q n ≡ false
    → ((i : ℕ) → i < k → n ≢ i → q i ≡ p i)
    → count q k + 1 ≡ count p k
unfolding count
count_less p q zero n lt pn qn h = absurd (omega arith)
count_less p q (suc k) n lt pn qn h = elim (Bool-cases (n == k)) [
  | inl last ↦
      let at : n ≡ k = ground (arith, last) in
      let pk : p k ≡ true = ap p (sym at) ∙ pn in
      let qk : q k ≡ false = ap q (sym at) ∙ qn in
      ground (arith, pk, qk, count_same p q k (λ i lt'. h i (omega arith) (omega arith)))
  | inr before ↦
      let rest = count_less p q k n (ground (arith, before)) pn qn (λ i lt'. h i (omega arith)) in
      let same : q k ≡ p k = h k (omega arith) (ground (arith, before)) in
      ground (arith, rest, same)
]

pub count_some : (p : ℕ → Bool) (k n : ℕ) → n < k → p n ≡ true → 0 < count p k
unfolding count
count_some p zero n lt h = absurd (omega arith)
count_some p (suc k) n lt h = elim (Bool-cases (n == k)) [
  | inl last ↦
      let pk : p k ≡ true = ap p (let at : k ≡ n = ground (arith, last) in at) ∙ h in
      ground (arith, pk)
  | inr before ↦ ground (arith, count_some p k n (ground (arith, before)) h)
]

pub count_none : (p : ℕ → Bool) (k : ℕ) → ((i : ℕ) → i < k → p i ≡ false) → count p k ≡ 0
unfolding count
count_none p zero h = refl
count_none p (suc k) h =
    ground (arith, h k (omega arith), count_none p k (λ i lt. h i (omega arith)))
