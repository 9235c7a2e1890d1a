-- ===== src/Process/Keys.antt =====
-- What can be typed on the keyboard of src/process/process.c.
use sector_os_re.Base.{
  ◌+◌, ap, inr, ltb→lt, inl, Bool-cases, sym, ◌<◌, ◌∙◌, all_below_sound, ◌≢◌, refl, ◌++◌, [], not,
  none, ◌||◌, if◌then◌else◌, ◌==◌, arith, ◌∷◌, ltb, some, ◌&&◌, leb, true, List, ◌≡◌, false, ℕ,
  all_below, Option, Bool,
}
use sector_os_re.Process.{Processes}
use sector_os_re.Process.Keyboard.{
  call_handler, handle_key, called, handler_of, Handling, process_kbh, shift_after, bottom_row,
  sets_no_key, home_row, key_or, top_row, find_key, digit_row, key_of, editing_keys, keyboard,
}

-- A keyboard with the layout of the United States, without its key for the quotes: the first scancode
-- of each run of keys, and the characters that are printed on them, without shift and with it.
unfoldable us_layout : List (ℕ × List ℕ × List ℕ)
us_layout =
    (0x0e, 8 ∷ 9 ∷ [], 8 ∷ 9 ∷ [])
    ∷ (
      0x02,
      b'1' ∷ b'2' ∷ b'3' ∷ b'4' ∷ b'5' ∷ b'6' ∷ b'7' ∷ b'8' ∷ b'9' ∷ b'0' ∷ b'-' ∷ b'=' ∷ [],
      b'!' ∷ b'@' ∷ b'#' ∷ b'$' ∷ b'%' ∷ b'^' ∷ b'&' ∷ b'*' ∷ b'(' ∷ b')' ∷ b'_' ∷ b'+' ∷ [],
    )
    ∷ (
      0x10,
      b'q' ∷ b'w' ∷ b'e' ∷ b'r' ∷ b't' ∷ b'y' ∷ b'u' ∷ b'i' ∷ b'o' ∷ b'p' ∷ b'[' ∷ b']' ∷ [],
      b'Q' ∷ b'W' ∷ b'E' ∷ b'R' ∷ b'T' ∷ b'Y' ∷ b'U' ∷ b'I' ∷ b'O' ∷ b'P' ∷ b'{' ∷ b'}' ∷ [],
    )
    ∷ (0x1c, 10 ∷ [], 10 ∷ [])
    ∷ (
      0x1e,
      b'a' ∷ b's' ∷ b'd' ∷ b'f' ∷ b'g' ∷ b'h' ∷ b'j' ∷ b'k' ∷ b'l' ∷ b';' ∷ [],
      b'A' ∷ b'S' ∷ b'D' ∷ b'F' ∷ b'G' ∷ b'H' ∷ b'J' ∷ b'K' ∷ b'L' ∷ b':' ∷ [],
    )
    ∷ (0x29, b'`' ∷ [], b'~' ∷ [])
    ∷ (
      0x2b,
      92 ∷ b'z' ∷ b'x' ∷ b'c' ∷ b'v' ∷ b'b' ∷ b'n' ∷ b'm' ∷ b',' ∷ b'.' ∷ b'/' ∷ [],
      b'|' ∷ b'Z' ∷ b'X' ∷ b'C' ∷ b'V' ∷ b'B' ∷ b'N' ∷ b'M' ∷ b'<' ∷ b'>' ∷ b'?' ∷ [],
    )
    ∷ (0x39, b' ' ∷ [], b' ' ∷ [])
    ∷ []

-- The scancode of a character in a run of keys.
unfoldable code_in : ℕ → ℕ → List ℕ → Option ℕ
code_in k code [] = none
code_in k code (c ∷ chars) =
    let rest = code_in k (code + 1) chars in if c == k then some code else rest

unfoldable stroke_in : ℕ → List (ℕ × List ℕ × List ℕ) → Bool × ℕ
stroke_in k [] = (false, 0)
stroke_in k ((first, plain, shifted) ∷ runs) =
    let rest = stroke_in k runs in
    elim (code_in k first plain) [
      | some code ↦ (false, code)
      | none ↦ elim (code_in k first shifted) [ some code ↦ (true, code) | none ↦ rest ]
    ]

-- The printable characters of ASCII but for the two quotes, which no key has.
unfoldable pub is_typeable : ℕ → Bool
is_typeable k = leb 32 k && ltb k 127 && not (k == 34) && not (k == 39)

-- Whether shift is held for a character, and the scancode of its key.
unfoldable pub stroke_of : ℕ → Bool × ℕ
unfolding us_layout code_in stroke_in
stroke_of k = stroke_in k us_layout

-- Each character that the stroke of a scancode sets is the one of that scancode alone.
names_code : Bool → ℕ → Option ℕ → Bool
names_code shift code none = true
names_code shift code (some k) = (k == 0) || ((stroke_of k).1 == code)

-- The scancodes that a typist sends for a character and for a text. Each key is released before the
-- next one is pressed, and shift behind the key that it is held for.
unfoldable pub strokes_of : ℕ → List ℕ
strokes_of k =
    let (shift, code) = stroke_of k in
    let released = code + 0x80 in
    if shift then 0x2a ∷ code ∷ released ∷ 0xaa ∷ [] else code ∷ released ∷ []

unfoldable pub text_strokes : List ℕ → List ℕ
text_strokes [] = []
text_strokes (k ∷ text) = strokes_of k ++ text_strokes text

-- The keys that the handler is called with for a character and for a text: it is called for a key that
-- is released and for shift too, with a key that is not set.
unfoldable pub calls_of : ℕ → List (Option ℕ)
calls_of k =
    let (shift, code) = stroke_of k in
    if shift then none ∷ some k ∷ none ∷ none ∷ [] else some k ∷ none ∷ []

unfoldable pub text_calls : List ℕ → List (Option ℕ)
text_calls [] = []
text_calls (k ∷ text) = calls_of k ++ text_calls text

unfoldable given_keys : Handling → List (Option ℕ)
given_keys (called c) = c.key ∷ []
given_keys _ = []

-- process_kbh on one scancode after the other, each time with `isCHPMode` at 0: `isShift` at the end,
-- and the keys of all calls of the handler.
unfoldable pub typing : Processes → Bool → List ℕ → Bool × List (Option ℕ)
unfolding given_keys
typing s shift [] = (shift, [])
typing s shift (code ∷ codes) =
    let (shift', handling) = process_kbh false s shift code in
    let (held, keys) = typing s shift' codes in (held, given_keys handling ++ keys)

-- What `typing` comes to when the current process has a handler.
pressing : Bool → List ℕ → Bool × List (Option ℕ)
pressing shift [] = (shift, [])
pressing shift (code ∷ codes) =
    let (held, keys) = pressing (shift_after shift code) codes in (held, key_of shift code ∷ keys)

handled :
    (s : Processes) (shift : Bool) (code h : ℕ)
    → handler_of s s.current_process ≡ some h
    → h ≢ 0
    → given_keys (process_kbh false s shift code).1 ≡ key_of shift code ∷ []
unfolding process_kbh handle_key call_handler given_keys
handled s shift code h has_handler set =
    let test : (h == 0) ≡ false = ground (arith, set) in rw (has_handler, test) refl

typing-pressing :
    (s : Processes) (h : ℕ) (shift : Bool) (codes : List ℕ)
    → handler_of s s.current_process ≡ some h
    → h ≢ 0
    → typing s shift codes ≡ pressing shift codes
unfolding typing pressing process_kbh
typing-pressing s h shift [] has_handler set = refl
typing-pressing s h shift (code ∷ codes) has_handler set =
    rw
      (
        handled s shift code h has_handler set,
        typing-pressing s h (shift_after shift code) codes has_handler set,
      )
      refl

same_calls : List (Option ℕ) → List (Option ℕ) → Bool
same_calls [] [] = true
same_calls [] (y ∷ ys) = false
same_calls (x ∷ xs) [] = false
same_calls (none ∷ xs) (none ∷ ys) = same_calls xs ys
same_calls (none ∷ xs) (some k ∷ ys) = false
same_calls (some j ∷ xs) (none ∷ ys) = false
same_calls (some j ∷ xs) (some k ∷ ys) = let rest = same_calls xs ys in (j == k) && rest

same_calls-eq : (xs ys : List (Option ℕ)) → same_calls xs ys ≡ true → xs ≡ ys
unfolding same_calls
same_calls-eq [] [] e = refl
same_calls-eq [] (y ∷ ys) e = cc
same_calls-eq (x ∷ xs) [] e = cc
same_calls-eq (none ∷ xs) (none ∷ ys) e = ap (λ r. none ∷ r) (same_calls-eq xs ys e)
same_calls-eq (none ∷ xs) (some k ∷ ys) e = cc
same_calls-eq (some j ∷ xs) (none ∷ ys) e = cc
same_calls-eq (some j ∷ xs) (some k ∷ ys) e =
    let here : j ≡ k = ground (arith, e) in
    let rest : same_calls xs ys ≡ true = ground (arith, e) in
    rw (here, same_calls-eq xs ys rest) refl

-- To press the strokes of a character, from shift released on, makes its calls and releases shift.
makes_calls : ℕ → Bool × List (Option ℕ) → Bool
makes_calls k (held, keys) = not held && same_calls keys (calls_of k)

strokes_type :
    all_below 127 (λ k. not (is_typeable k) || makes_calls k (pressing false (strokes_of k))) ≡ true
unfolding all_below is_typeable makes_calls same_calls pressing strokes_of calls_of stroke_of
    shift_after key_of sets_no_key key_or find_key keyboard editing_keys digit_row top_row home_row
    bottom_row
strokes_type = refl

codes_named :
    all_below 80
      (λ code. names_code false code (key_of false code) && names_code true code (key_of true code))
    ≡ true
unfolding all_below names_code key_of stroke_of sets_no_key key_or find_key keyboard editing_keys
    digit_row top_row home_row bottom_row
codes_named = refl

makes_calls-eq :
    (k : ℕ) (r : Bool × List (Option ℕ)) → makes_calls k r ≡ true → r ≡ (false, calls_of k)
unfolding makes_calls
makes_calls-eq k (true, keys) e = cc
makes_calls-eq k (false, keys) e =
    ap (λ (l : List (Option ℕ)). (false, l)) (same_calls-eq keys (calls_of k) e)

pressing-strokes_of :
    (k : ℕ) → is_typeable k ≡ true → pressing false (strokes_of k) ≡ (false, calls_of k)
unfolding is_typeable
pressing-strokes_of k typeable =
    let row =
      all_below_sound 127
        (λ j. not (is_typeable j) || makes_calls j (pressing false (strokes_of j))) k strokes_type
        (ground arith) in
    makes_calls-eq k (pressing false (strokes_of k)) (rw typeable at row)

pressing-append :
    (shift : Bool) (xs ys : List ℕ)
    → pressing shift (xs ++ ys) ≡ (
      (pressing (pressing shift xs).0 ys).0,
      (pressing shift xs).1 ++ (pressing (pressing shift xs).0 ys).1,
    )
unfolding pressing
pressing-append shift [] ys = refl
pressing-append shift (code ∷ xs) ys = rw (pressing-append (shift_after shift code) xs ys) refl

-- Every character of a text is typeable.
abbrev pub IsTypeable : List ℕ → Type 0
IsTypeable [] = Unit
IsTypeable (k ∷ text) = (is_typeable k ≡ true) × IsTypeable text

pressing-text :
    (text : List ℕ)
    → IsTypeable text
    → pressing false (text_strokes text) ≡ (false, text_calls text)
unfolding text_strokes text_calls pressing
pressing-text [] typeable = refl
pressing-text (k ∷ text) (first, typeable) =
    rw
      (
        pressing-append false (strokes_of k) (text_strokes text),
        pressing-strokes_of k first,
        pressing-text text typeable,
      )
      refl

-- While isCHPMode, which nothing sets, happens to be 0: a text of printable characters other than the
-- two quotes, typed on a keyboard with the layout of the United States, each key pressed and released,
-- and shift around each character that needs it, comes to the handler of the current process as it is.
-- The other calls of the handler, one for each release and one for each time that shift is pressed, have
-- a key that is not set; and shift is released at the end.
pub typing-text_strokes :
    (s : Processes) (h : ℕ) (text : List ℕ)
    → handler_of s s.current_process ≡ some h
    → h ≢ 0
    → IsTypeable text
    → typing s false (text_strokes text) ≡ (false, text_calls text)
typing-text_strokes s h text has_handler set typeable =
    typing-pressing s h false (text_strokes text) has_handler set ∙ pressing-text text typeable

code_named :
    (shift : Bool) (code : ℕ) → code < 80 → names_code shift code (key_of shift code) ≡ true
code_named false code lt =
    let row =
      all_below_sound 80
        (λ c. names_code false c (key_of false c) && names_code true c (key_of true c)) code
        codes_named lt in
    ground (arith, row)
code_named true code lt =
    let row =
      all_below_sound 80
        (λ c. names_code false c (key_of false c) && names_code true c (key_of true c)) code
        codes_named lt in
    ground (arith, row)

none_above : (shift : Bool) (code k : ℕ) → key_of shift code ≡ some k → code < 80
unfolding key_of
none_above shift code k e = elim (Bool-cases (ltb code 80)) [
  | inl low ↦ ltb→lt code 80 low
  | inr high ↦ let off : none ≡ some k = rw high at e in cc
]

code_by : (shift : Bool) (code k : ℕ) → k ≢ 0 → key_of shift code ≡ some k → (stroke_of k).1 ≡ code
unfolding names_code
code_by shift code k set e =
    let named = code_named shift code (none_above shift code k e) in
    let row : ((k == 0) || ((stroke_of k).1 == code)) ≡ true = rw e at named in ground (arith, row)

-- A character other than 0 comes from one key only: two scancodes that set it, with shift or without,
-- are the same.
pub key_of-injective :
    (shift shift' : Bool) (code code' k : ℕ)
    → k ≢ 0
    → key_of shift code ≡ some k
    → key_of shift' code' ≡ some k
    → code ≡ code'
key_of-injective shift shift' code code' k set e e' =
    sym (code_by shift code k set e) ∙ code_by shift' code' k set e'
