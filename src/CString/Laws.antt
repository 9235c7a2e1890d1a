-- ===== src/CString/Laws.antt =====
-- Lengths, comparison and copies of texts in src/common/string.c.
use sector_os_re.Base.{
  false, ◌==◌, Bool-cases, zero, inr, inl, refl, true, suc, [], arith, ◌⊎◌, some, ◌<◌, ◌≢◌, ◌∷◌,
  length, ◌≡◌, ◌++◌, ℕ, List,
}
use sector_os_re.CString.{strncpy_loop, strcpy, strncpy, strlen, strcmp}

-- A text in memory: its bytes, none of them 0, the 0 that ends it, and what lies behind.
abbrev pub NoZero : List ℕ → Type 0
NoZero [] = Unit
NoZero (c ∷ s) = (c ≢ 0) × NoZero s

abbrev pub text : List ℕ → List ℕ → List ℕ
text s rest = s ++ 0 ∷ rest

-- strlen counts the bytes in front of the 0, and reads none behind it.
pub strlen-text : (s rest : List ℕ) → NoZero s → strlen (text s rest) ≡ some (length s)
unfolding strlen
strlen-text [] rest h = refl
strlen-text (c ∷ s) rest (ne, h) = ground (arith, strlen-text s rest h)

-- strcmp answers 0 for equal texts and 1 for different ones.
pub strcmp-text :
    (s t rest behind : List ℕ)
    → NoZero s
    → NoZero t
    → ((s ≡ t) × (strcmp (text s rest) (text t behind) ≡ some 0))
      ⊎ ((s ≢ t) × (strcmp (text s rest) (text t behind) ≡ some 1))
unfolding strcmp
strcmp-text [] [] rest behind h k = inl (refl, refl)
strcmp-text [] (d ∷ t) rest behind h k = inr (λ e. cc, ground arith)
strcmp-text (c ∷ s) [] rest behind h k = inr (λ e. cc, ground arith)
strcmp-text (c ∷ s) (d ∷ t) rest behind (ne, h) (ne', k) = elim (Bool-cases (c == d)) [
  | inl same ↦
      let e : c ≡ d = ground arith in
      let nonzero : (d == 0) ≡ false = ground arith in
      elim (strcmp-text s t rest behind h k) [
        | inl (eq, answer) ↦ inl (rw (e, eq), rw (same, nonzero) answer)
        | inr (other, answer) ↦ inr (λ eq. other (cc), rw (same, nonzero) answer)
      ]
  | inr differ ↦ let ne'' : c ≢ d = ground arith in inr (λ eq. ne'' (cc), rw differ)
]

-- strcpy writes the text with its 0, and answers its length.
pub strcpy-text : (s rest : List ℕ) → NoZero s → strcpy (text s rest) ≡ some (text s [], length s)
unfolding strcpy
strcpy-text [] rest h = refl
strcpy-text (c ∷ s) rest (ne, h) = ground (arith, strcpy-text s rest h)

strncpy_loop-text :
    (s rest : List ℕ) (bound : ℕ)
    → NoZero s
    → length s < bound
    → strncpy_loop bound (text s rest) ≡ some (text s [], length s)
unfolding strncpy_loop
strncpy_loop-text s rest zero h lt = absurd (omega arith)
strncpy_loop-text [] rest (suc left) h lt = refl
strncpy_loop-text (c ∷ s) rest (suc left) (ne, h) lt =
    ground (arith, strncpy_loop-text s rest left h (omega arith))

-- strncpy writes a text that is shorter than both the bound and 255 with its 0, and answers the
-- destination.
pub strncpy-text :
    (s rest : List ℕ) (max_length : ℕ)
    → NoZero s
    → length s < max_length
    → length s < 255
    → strncpy (text s rest) max_length ≡ some (text s [], true)
unfolding strncpy
strncpy-text s rest max_length h lt lt' =
    ground (arith, strncpy_loop-text s rest 255 h lt', strncpy_loop-text s rest max_length h lt)
