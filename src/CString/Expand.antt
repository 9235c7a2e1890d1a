-- ===== src/CString/Expand.antt =====
-- What expand_path of src/fs/vfs.c makes of a path.
use mathlib.Core.List.{append-nil, append_assoc}
use sector_os_re.Base.{
  true, ltb, suc, ◌<◌, ◌≤◌, ◌+◌, length-append, length, some, arith, ◌==◌, refl, false, ◌∙◌, [], ap,
  sym, ◌++◌, ◌≢◌, ◌≡◌, ◌∷◌, List, ℕ,
}
use sector_os_re.CString.Split.{
  str_split, list2str, expand_path, pop_back, same_text, split_loop, tokens_of, list2str_loop,
}

-- A path of tokens, each behind a "/"; and with the last token first.
unfoldable pub spelled : List (List ℕ) → List ℕ
spelled [] = []
spelled (t ∷ ts) = b'/' ∷ (t ++ spelled ts)

unfoldable pub backwards : List (List ℕ) → List ℕ
backwards [] = []
backwards (t ∷ ts) = backwards ts ++ b'/' ∷ t

-- A token with no "/" in it that is neither "." nor "..".
abbrev NoSlash : List ℕ → Type 0
NoSlash [] = Unit
NoSlash (c ∷ s) = (c ≢ b'/') × NoSlash s

abbrev pub ArePlain : List (List ℕ) → Type 0
ArePlain [] = Unit
ArePlain (t ∷ ts) =
    NoSlash t
    × (same_text t (b'.' ∷ []) ≡ false)
    × (same_text t (b'.' ∷ b'.' ∷ []) ≡ false)
    × ArePlain ts

tokens_of-token :
    (s begun rest : List ℕ)
    → NoSlash s
    → tokens_of b'/' begun (s ++ rest) ≡ tokens_of b'/' (begun ++ s) rest
unfolding tokens_of
tokens_of-token [] begun rest plain = ap (λ b. tokens_of b'/' b rest) (sym (append-nil begun))
tokens_of-token (c ∷ s) begun rest (here, plain) =
    let e : (c == b'/') ≡ false = ground arith in
    rw e (
      tokens_of-token s (begun ++ c ∷ []) rest plain
      ∙ ap (λ b. tokens_of b'/' b rest) (append_assoc begun (c ∷ []) s))

tokens_of-spelled :
    (ts : List (List ℕ)) (begun : List ℕ)
    → ArePlain ts
    → tokens_of b'/' begun (spelled ts) ≡ begun ∷ ts
unfolding tokens_of spelled
tokens_of-spelled [] begun plain = refl
tokens_of-spelled (t ∷ ts) begun (clean, _, _, plain) =
    ap (λ r. begun ∷ r) (tokens_of-token t [] (spelled ts) clean ∙ tokens_of-spelled ts t plain)

split_loop-plain : (ts acc : List (List ℕ)) → ArePlain ts → split_loop acc ts ≡ acc ++ ts
unfolding split_loop
split_loop-plain [] acc plain = sym (append-nil acc)
split_loop-plain (t ∷ ts) acc (_, dot, dots, plain) =
    rw (dot, dots) (split_loop-plain ts (acc ++ t ∷ []) plain ∙ append_assoc acc (t ∷ []) ts)

-- As many rounds as tokens.
abbrev SameLength : List (List ℕ) → List (List ℕ) → Type 0
SameLength [] [] = Unit
SameLength [] (t ∷ ts) = ⊥
SameLength (r ∷ rs) [] = ⊥
SameLength (r ∷ rs) (t ∷ ts) = SameLength rs ts

SameLength-refl : (ts : List (List ℕ)) → SameLength ts ts
SameLength-refl [] = tt
SameLength-refl (t ∷ ts) = SameLength-refl ts

-- The last of some tokens.
pop_back-parts :
    (t : List ℕ) (ts rs : List (List ℕ))
    → SameLength rs ts
    → (init : List (List ℕ)) × (last : List ℕ) × (pop_back (t ∷ ts) ≡ some (init, last))
      × SameLength rs init
      × (backwards (t ∷ ts) ≡ b'/' ∷ (last ++ backwards init))
unfolding pop_back backwards
pop_back-parts t [] [] same = ([], t, refl, tt, ap (λ r. b'/' ∷ r) (sym (append-nil t)))
pop_back-parts t [] (r ∷ rs) same = absurd same
pop_back-parts t (u ∷ us) [] same = absurd same
pop_back-parts t (u ∷ us) (r ∷ rs) same =
    let (init, last, popped_last, same', parts) = pop_back-parts u us rs same in
    (
      t ∷ init,
      last,
      rw popped_last refl,
      same',
      ap (λ b. b ++ b'/' ∷ t) parts
          ∙ ap (λ r. b'/' ∷ r) (append_assoc last (backwards init) (b'/' ∷ t)),
    )

no_tokens : backwards [] ≡ []
unfolding backwards
no_tokens = refl

length-backwards : (ts : List (List ℕ)) → length (backwards ts) ≡ length (spelled ts)
unfolding backwards spelled
length-backwards [] = refl
length-backwards (t ∷ ts) = omega (
  arith,
  length-append (backwards ts) (b'/' ∷ t),
  length-append t (spelled ts),
  length-backwards ts,
)

-- A text that fits into the buffer of 256 bytes is written as it is.
list2str_loop-backwards :
    (rounds list : List (List ℕ)) (ret : List ℕ)
    → SameLength rounds list
    → length ret + length (backwards list) < 256
    → list2str_loop rounds b'/' 0 256 ret list ≡ some (ret ++ backwards list)
unfolding list2str_loop
list2str_loop-backwards [] [] ret same fits =
    ap some (sym (append-nil ret) ∙ ap (λ b. ret ++ b) (sym no_tokens))
list2str_loop-backwards [] (t ∷ ts) ret same fits = absurd same
list2str_loop-backwards (r ∷ rs) [] ret same fits = absurd same
list2str_loop-backwards (r ∷ rs) (t ∷ ts) ret same fits =
    let (init, last, popped_last, same', parts) = pop_back-parts t ts rs same in
    let longer = length-append ret (b'/' ∷ last) in
    let whole : length (backwards (t ∷ ts)) ≡ suc (length last + length (backwards init)) =
      ap (λ b. length b) parts ∙ ap (λ n. suc n) (length-append last (backwards init)) in
    let keeps : ltb 256 (0 + length last + 1 + 1) ≡ false = ground (arith, whole, fits) in
    let inside : ltb (length (ret ++ b'/' ∷ last)) 256 ≡ true =
      ground (arith, longer, whole, fits) in
    rw (list2str_loop, popped_last, keeps, inside)
      (list2str_loop-backwards rs init (ret ++ b'/' ∷ last) same'
          (omega (arith, longer, whole, fits))
        ∙ ap some
            (append_assoc ret (b'/' ∷ last) (backwards init) ∙ ap (λ b. ret ++ b) (sym parts)))

-- A path of at most 254 characters, of tokens that hold no "/" and are not "." or "..", comes out of
-- expand_path with its tokens in the opposite order, and with a "/" at the end.
pub expand_path-backwards :
    (ts : List (List ℕ))
    → ArePlain ts
    → length (spelled ts) ≤ 254
    → expand_path (spelled ts) ≡ some (backwards ts ++ b'/' ∷ [])
unfolding expand_path list2str str_split split_loop same_text backwards
expand_path-backwards ts plain short =
    let tokens = [] ∷ ts in
    let split : str_split b'/' (spelled ts) ≡ tokens =
      ap (λ l. split_loop [] l) (tokens_of-spelled ts [] plain)
      ∙ split_loop-plain ts ([] ∷ []) plain in
    let size = length-append (backwards ts) (b'/' ∷ []) in
    ap (λ l. list2str_loop l b'/' 0 256 [] l) split
    ∙ list2str_loop-backwards tokens tokens [] (SameLength-refl tokens)
        (omega (arith, short, size, length-backwards ts))
