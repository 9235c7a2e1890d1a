-- ===== src/CString/Number.antt =====
-- `atoi` of src/common/string.c on the digits of a number.
use sector_os_re.CString.{isspace, atoi_digits, atoi}
use sector_os_re.Base.{
  ◌==◌, false, ltb, add32, sub32, some, ◌≡◌, ◌++◌, ◌⊎◌, ◌^◌, arith, ◌*◌, ◌+◌, [], ◌≤◌, ◌<◌, ◌∷◌,
  List, ℕ,
}

-- The digits of a number from 0 to 9, highest first, and the number that they stand for.
abbrev pub AllDigits : List ℕ → Type 0
AllDigits [] = Unit
AllDigits (d ∷ ds) = (d < 10) × AllDigits ds

unfoldable pub value : ℕ → List ℕ → ℕ
value acc [] = acc
value acc (d ∷ ds) = value (10 * acc + d) ds

unfoldable pub shown : List ℕ → List ℕ
shown [] = []
shown (d ∷ ds) = (d + b'0') ∷ shown ds

value-ge : (ds : List ℕ) (acc : ℕ) → acc ≤ value acc ds
unfolding value
value-ge [] acc = omega arith
value-ge (d ∷ ds) acc = omega (arith, value-ge ds (10 * acc + d))

atoi_digits-value :
    (ds : List ℕ) (acc c : ℕ) (rest : List ℕ)
    → AllDigits ds
    → value acc ds < 2 ^ 31
    → (c < b'0') ⊎ (b'9' < c)
    → c < 256
    → atoi_digits acc (shown ds ++ c ∷ rest) ≡ some (value acc ds)
unfolding atoi_digits value shown
atoi_digits-value [] acc c rest h small out byte = ground arith
atoi_digits-value (d ∷ ds) acc c rest (lt, h) small out byte =
    let le = value-ge ds (10 * acc + d) in
    let digit : sub32 (d + 48) 48 ≡ d = omega arith in
    let next : add32 (10 * acc) d ≡ 10 * acc + d = omega arith in
    let low : ltb 9 d ≡ false = ground arith in
    let fits : ltb 0x7fff_ffff (10 * acc) ≡ false = ground (arith, le, small) in
    rw (digit, next, low, fits) (atoi_digits-value ds (10 * acc + d) c rest h small out byte)

digit-isspace : (d : ℕ) → d < 10 → isspace (d + b'0') ≡ false
unfolding isspace
digit-isspace d lt = ground arith

-- Digits that stand for a number below 2 ^ 31, ended by a byte that is no digit, are read as that
-- number, and with a minus sign in front as its negative in 32 bits.
pub atoi-value :
    (ds : List ℕ) (d c : ℕ) (rest : List ℕ)
    → AllDigits (d ∷ ds)
    → value 0 (d ∷ ds) < 2 ^ 31
    → (c < b'0') ⊎ (b'9' < c)
    → c < 256
    → (atoi (shown (d ∷ ds) ++ c ∷ rest) ≡ some (value 0 (d ∷ ds)))
      × (atoi (b'-' ∷ (shown (d ∷ ds) ++ c ∷ rest)) ≡ some (sub32 0 (value 0 (d ∷ ds))))
unfolding atoi isspace shown value
atoi-value ds d c rest h small out byte =
    let read = atoi_digits-value (d ∷ ds) 0 c rest h small out byte in
    let (lt, _) = h in
    let space : isspace (d + b'0') ≡ false = digit-isspace d lt in
    let minus : (d + b'0' == b'-') ≡ false = ground arith in
    let plus : (d + b'0' == b'+') ≡ false = ground arith in (rw (space, minus, plus) read, rw read)
