-- ===== src/Process/Keyboard.antt =====
-- process_kbh of src/process/process.c: from the scancodes of the keyboard to the calls of the handler
-- of the current process. A key is the number of its character; `none` is the `key` that no case of
-- the `switch` has set.
use sector_os_re.Base.{
  false, true, not, ◌||◌, none, ltb, some, ◌&&◌, [], ◌==◌, if◌then◌else◌, Option, ◌++◌, ◌∷◌, List,
  Bool, ℕ,
}
use sector_os_re.Process.{Processes}

pub record Key : Type 0 where
  pub code : ℕ
  pub plain : ℕ
  pub shifted : ℕ

abbrev key : ℕ → ℕ → ℕ → Key
key code plain shifted = record { code = code; plain = plain; shifted = shifted }

-- `\b` and `\t`
unfoldable pub editing_keys : List Key
editing_keys = key 0x0e 8 8 ∷ key 0x0f 9 9 ∷ []

-- The row of the digits.
unfoldable pub digit_row : List Key
digit_row =
    key 0x29 96 126
    ∷ key 0x02 49 33
    ∷ key 0x03 50 64
    ∷ key 0x04 51 35
    ∷ key 0x05 52 36
    ∷ key 0x06 53 37
    ∷ key 0x07 54 94
    ∷ key 0x08 55 38
    ∷ key 0x09 56 42
    ∷ key 0x0a 57 40
    ∷ key 0x0b 48 41
    ∷ key 0x0c 45 95
    ∷ key 0x0d 61 43
    ∷ []

-- The row of Q, with `\n` at the end.
unfoldable pub top_row : List Key
top_row =
    key 0x10 113 81
    ∷ key 0x11 119 87
    ∷ key 0x12 101 69
    ∷ key 0x13 114 82
    ∷ key 0x14 116 84
    ∷ key 0x15 121 89
    ∷ key 0x16 117 85
    ∷ key 0x17 105 73
    ∷ key 0x18 111 79
    ∷ key 0x19 112 80
    ∷ key 0x1a 91 123
    ∷ key 0x1b 93 125
    ∷ key 0x1c 10 10
    ∷ []

-- The row of A.
unfoldable pub home_row : List Key
home_row =
    key 0x1e 97 65
    ∷ key 0x1f 115 83
    ∷ key 0x20 100 68
    ∷ key 0x21 102 70
    ∷ key 0x22 103 71
    ∷ key 0x23 104 72
    ∷ key 0x24 106 74
    ∷ key 0x25 107 75
    ∷ key 0x26 108 76
    ∷ key 0x27 59 58
    ∷ []

-- The row of Z, the space and the backslash.
unfoldable pub bottom_row : List Key
bottom_row =
    key 0x2c 122 90
    ∷ key 0x2d 120 88
    ∷ key 0x2e 99 67
    ∷ key 0x2f 118 86
    ∷ key 0x30 98 66
    ∷ key 0x31 110 78
    ∷ key 0x32 109 77
    ∷ key 0x33 44 60
    ∷ key 0x34 46 62
    ∷ key 0x35 47 63
    ∷ key 0x39 32 32
    ∷ key 0x2b 92 124
    ∷ []

-- The cases that set no key: num lock, control, alt, the two shift keys and caps lock.
unfoldable pub sets_no_key : ℕ → Bool
sets_no_key code =
    (code == 0x45)
    || (code == 0x1d)
    || (code == 0x38)
    || (code == 0x2a)
    || (code == 0x36)
    || (code == 0x3a)

unfoldable pub find_key : Bool → ℕ → List Key → Option ℕ
find_key shift code [] = none
find_key shift code (k ∷ keys) =
    let rest = find_key shift code keys in
    if k.code == code then some (if shift then k.shifted else k.plain) else rest

-- All the cases that set a key to a character.
unfoldable pub keyboard : List Key
keyboard = editing_keys ++ digit_row ++ top_row ++ home_row ++ bottom_row

unfoldable pub key_or : ℕ → Option ℕ → ℕ
key_or other none = other
key_or other (some k) = k

-- `key` after the `switch`, whose default case is 0.
unfoldable pub key_of : Bool → ℕ → Option ℕ
key_of shift code =
    if not (ltb code 80) || sets_no_key code
    then none
    else some (key_or 0 (find_key shift code keyboard))

-- `isShift` after the `switch`, and after the release of a shift key.
unfoldable pub shift_after : Bool → ℕ → Bool
shift_after shift code =
    if ltb code 80
    then (if (code == 0x2a) || (code == 0x36)
        then true
        else if code == 0x3a
        then not shift
        else shift)
    else if (code == 0xaa) || (code == 0xb6)
    then false
    else shift

-- A call `handler(key, isCTRL, isALT, scancode)`.
pub record KeyCall : Type 0 where
  pub handler : ℕ
  pub key : Option ℕ
  pub ctrl : Bool
  pub alt : Bool
  pub code : ℕ

-- `unset` is the branch that goes by a local array at an index that has no value.
pub data Handling : Type 0 where
  ignored unset no_process : Handling
  called : KeyCall → Handling

-- `handler == 0` comes before the test of `isCHPMode`.
unfoldable pub call_handler : Bool → Option ℕ → ℕ → ℕ → Handling
call_handler chp_mode key code handler =
    if (handler == 0) || chp_mode
    then ignored
    else called (record {
      handler = handler;
      key = key;
      ctrl = code == 0x1d;
      alt = code == 0x38;
      code = code;
    })

unfoldable pub handler_of : Processes → Option ℕ → Option ℕ
handler_of s none = none
handler_of s (some current) = some (s.pcbs current).handler

unfoldable pub handle_key : Bool → Option ℕ → ℕ → Option ℕ → Handling
handle_key chp_mode key code none = no_process
handle_key chp_mode key code (some handler) = call_handler chp_mode key code handler

-- The first argument is what `isCHPMode` happens to be, as nothing sets it. The result is `isShift`
-- with what becomes of the stroke.
unfoldable pub process_kbh : Bool → Processes → Bool → ℕ → Bool × Handling
process_kbh chp_mode s shift code = (
  shift_after shift code,
  if chp_mode && ltb code 80
      then unset
      else handle_key chp_mode (key_of shift code) code (handler_of s s.current_process),
)
