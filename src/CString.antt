-- ===== src/CString.antt =====
-- The routines of src/common/string.c on texts. An array is the list of its bytes from the pointer
-- on; `none` is a read past the end of the array. A text is ended by a 0.
pub mod Laws
pub mod Number
pub mod Print
pub mod Split
pub mod Expand
pub mod RoundTrip
pub mod Search
mod Tests
use mathlib.Core.Option
use sector_os_re.Base.{
  ◌*◌, mul32, zero, add32, u32_max, suc, not, sub32, ◌+◌, ◌||◌, ltb, ◌&&◌, ◌∷◌, [], ◌==◌, none,
  some, if◌then◌else◌, leb, Option, Bool, List, ℕ,
}
use mathlib.Core.Option.{none, some, Option}

-- `while (*s++) len++;`
pub strlen : List ℕ → Option ℕ
strlen [] = none
strlen (c ∷ s) = let rest = strlen s in if c == 0 then some 0 else Option.map (λ n. n + 1) rest

-- 0 for equal texts, 1 for others
pub strcmp : List ℕ → List ℕ → Option ℕ
strcmp [] src = none
strcmp (d ∷ dst) [] = none
strcmp (d ∷ dst) (s ∷ src) =
    let rest = strcmp dst src in if d == s then (if s == 0 then some 0 else rest) else some 1

-- The bytes written to `dst`, the 0 included, and the number returned.
pub strcpy : List ℕ → Option (List ℕ × ℕ)
strcpy [] = none
strcpy (c ∷ src) =
    let rest = strcpy src in
    if c == 0 then some (0 ∷ [], 0) else Option.map (λ (out, i). (c ∷ out, i + 1)) rest

-- The loop of strncpy: the bytes written, and the count at the end.
pub strncpy_loop : ℕ → List ℕ → Option (List ℕ × ℕ)
strncpy_loop zero source = some ([], 0)
strncpy_loop (suc left) [] = none
strncpy_loop (suc left) (c ∷ source) =
    let rest = strncpy_loop left source in
    if c == 0 then some (0 ∷ [], 0) else Option.map (λ (out, n). (c ∷ out, n + 1)) rest

-- For two pointers that are not NULL and a length from 0 on: the bytes written, and whether the
-- answer is `destString` or NULL.
pub strncpy : List ℕ → ℕ → Option (List ℕ × Bool)
strncpy source max_length =
    let bound = if ltb 255 max_length then 255 else max_length in
    Option.map (λ (out, count). (out, not (leb 255 count))) (strncpy_loop bound source)

-- The index of the first `c`, or `(uint32_t)-1`
pub chbc_from : ℕ → List ℕ → ℕ → Option ℕ
chbc_from i [] c = none
chbc_from i (x ∷ str) c =
    let rest = chbc_from (i + 1) str c in
    if x == 0 then some u32_max else if x == c then some i else rest

pub chbc : List ℕ → ℕ → Option ℕ
chbc str c = chbc_from 0 str c

pub isspace : ℕ → Bool
isspace c = c == b' ' || c == 9 || c == 10 || c == 11 || c == 12 || c == 13

pub isprint : ℕ → Bool
isprint c = leb b' ' c && leb c b'~'

-- `result = (10 * result) + digit`, as far as the digits go. `digit` is unsigned, so a character below
-- '0' gives a large one, and the sum is one of 32 bits that goes back into an `int`; `none` is a
-- product that no `int` holds, which C leaves undefined.
pub atoi_digits : ℕ → List ℕ → Option ℕ
atoi_digits result [] = none
atoi_digits result (c ∷ string) =
    let digit = sub32 c b'0' in
    let rest = atoi_digits (add32 (10 * result) digit) string in
    if ltb 9 digit then some result else if ltb 0x7fff_ffff (10 * result) then none else rest

-- The bit pattern of the `int` that is answered.
pub atoi : List ℕ → Option ℕ
atoi [] = none
atoi (c ∷ string) =
    let skipped = atoi string in
    if isspace c
    then skipped
    else if c == b'-'
    then Option.map (λ n. sub32 0 n) (atoi_digits 0 string)
    else if c == b'+'
    then atoi_digits 0 string
    else atoi_digits 0 (c ∷ string)
