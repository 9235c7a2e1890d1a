-- ===== src/CString/Tests.antt =====
-- The theorems about src/common/string.c on short texts.
use sector_os_re.Base.{
  ◌≤◌, length, ◌++◌, suc, ◌<◌, Memory, some, ◌∷◌, refl, [], arith, true, ℕ, List, ◌≡◌,
}
use sector_os_re.CString.{strlen, atoi, chbc_from, chbc, isprint}
use sector_os_re.CString.Laws.{text, NoZero}
use sector_os_re.CString.Print.{itoa}
use sector_os_re.CString.RoundTrip.{atoi-itoa}
use sector_os_re.Bytes.Fields.{bytes_from}
use sector_os_re.CString.Split.{
  pop_back, list2str_loop, list2str, split_loop, tokens_of, str_split, expand_path, same_text,
}
use sector_os_re.CString.Expand.{expand_path-backwards, backwards, spelled, ArePlain}
use sector_os_re.CString.Search.{
  strstr-first_at, in_mb, begins, first_at, strndup, stoc, strdup, strstr, strcat,
}

abbrev abc : List ℕ
abc = 97 ∷ 98 ∷ 99 ∷ []

abc-NoZero : NoZero abc
abc-NoZero = (omega arith, (omega arith, (omega arith, tt)))

abbrev ab : List ℕ
ab = 97 ∷ 98 ∷ []

ab-NoZero : NoZero ab
ab-NoZero = (omega arith, (omega arith, tt))

index_of_b : chbc (text abc []) 98 ≡ some 1
unfolding chbc chbc_from
index_of_b = refl

printable : isprint 97 ≡ true
unfolding isprint
printable = refl

atoi-itoa_example :
    (out : Memory) × (k : ℕ) × (itoa (λ a. 7) 1024 10 ≡ some out)
    × (k < 32)
    × (atoi (bytes_from (suc (suc k)) out 0) ≡ some 1024)
atoi-itoa_example = atoi-itoa 1024 (λ a. 7) (omega arith)

-- "/a/bc" and "/bc/a/"
two_tokens : ArePlain ((b'a' ∷ []) ∷ (b'b' ∷ b'c' ∷ []) ∷ [])
unfolding same_text
two_tokens = ((ground arith, tt), refl, refl, ((ground arith, (ground arith, tt)), refl, refl, tt))

short_path : length (spelled ((b'a' ∷ []) ∷ (b'b' ∷ b'c' ∷ []) ∷ [])) ≤ 254
unfolding spelled
short_path = omega arith

expand_path-backwards_example :
    expand_path (spelled ((b'a' ∷ []) ∷ (b'b' ∷ b'c' ∷ []) ∷ []))
    ≡ some (backwards ((b'a' ∷ []) ∷ (b'b' ∷ b'c' ∷ []) ∷ []) ++ b'/' ∷ [])
expand_path-backwards_example =
    expand_path-backwards ((b'a' ∷ []) ∷ (b'b' ∷ b'c' ∷ []) ∷ []) two_tokens short_path

turned_round :
    expand_path (b'/' ∷ b'a' ∷ b'/' ∷ b'b' ∷ []) ≡ some (b'/' ∷ b'b' ∷ b'/' ∷ b'a' ∷ b'/' ∷ [])
unfolding expand_path str_split tokens_of split_loop same_text list2str list2str_loop pop_back
turned_round = refl

-- "ab" in "xaab"
strstr-first_at_example :
    strstr (b'x' ∷ b'a' ∷ b'a' ∷ b'b' ∷ 0 ∷ []) (b'a' ∷ b'b' ∷ 0 ∷ [])
    ≡ some (first_at (b'a' ∷ b'b' ∷ []) (b'x' ∷ b'a' ∷ b'a' ∷ b'b' ∷ []) 0)
strstr-first_at_example =
    strstr-first_at (b'x' ∷ b'a' ∷ b'a' ∷ b'b' ∷ []) b'a' (b'b' ∷ []) [] [] (ground arith)
      (ground arith)

ab_at_2 : first_at (b'a' ∷ b'b' ∷ []) (b'x' ∷ b'a' ∷ b'a' ∷ b'b' ∷ []) 0 ≡ some 2
unfolding first_at begins
ab_at_2 = refl

joined : strcat (b'a' ∷ 0 ∷ 9 ∷ []) (b'b' ∷ 0 ∷ []) ≡ some (b'a' ∷ b'b' ∷ 0 ∷ [])
unfolding strcat strlen
joined = refl

copied : strdup (b'a' ∷ b'b' ∷ 0 ∷ 9 ∷ []) ≡ some (b'a' ∷ b'b' ∷ 0 ∷ [])
unfolding strdup strlen
copied = refl

cut : strndup (b'a' ∷ b'b' ∷ 0 ∷ []) 1 ≡ b'a' ∷ 0 ∷ []
unfolding strndup
cut = refl

five_megabytes : stoc 5242881 ≡ (5, in_mb)
unfolding stoc
five_megabytes = refl
