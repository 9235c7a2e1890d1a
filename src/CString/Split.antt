-- ===== src/CString/Split.antt =====
-- strsep, str_split and list2str of src/common/string.c, and expand_path of src/fs/vfs.c, on texts
-- without the 0 behind them. The list of tokens is what its nodes hold from the head on: list_push
-- adds behind them, and list_pop takes the last. The buffer of list2str, which grows too late for
-- long results, is not kept.
use sector_os_re.Base.{
  ◌*◌, length, ◌+◌, ltb, ◌&&◌, false, ◌==◌, none, true, some, ◌++◌, if◌then◌else◌, Option, ◌∷◌,
  Bool, [], List, ℕ,
}

-- `strcmp(…) == 0`
unfoldable pub same_text : List ℕ → List ℕ → Bool
same_text [] [] = true
same_text [] (d ∷ t) = false
same_text (c ∷ s) [] = false
same_text (c ∷ s) (d ∷ t) = let rest = same_text s t in c == d && rest

-- The tokens that strsep takes one by one, with the one that has begun.
unfoldable pub tokens_of : ℕ → List ℕ → List ℕ → List (List ℕ)
tokens_of delim token [] = token ∷ []
tokens_of delim token (c ∷ path) =
    let here = tokens_of delim [] path in
    let on = tokens_of delim (token ++ c ∷ []) path in if c == delim then token ∷ here else on

-- The list without its last element, and that element: list_pop.
unfoldable pub pop_back : List (List ℕ) → Option (List (List ℕ) × List ℕ)
pop_back [] = none
pop_back (t ∷ ts) = elim (pop_back ts) [
  | none ↦ some ([], t)
  | some (init, last) ↦ some (t ∷ init, last)
]

abbrev pub popped : List (List ℕ) → Option (List (List ℕ) × List ℕ) → List (List ℕ)
popped list none = list
popped list (some (init, last)) = init

-- `while ((token = strsep(&rest, delim)) != NULL)`
unfoldable pub split_loop : List (List ℕ) → List (List ℕ) → List (List ℕ)
split_loop ret_list [] = ret_list
split_loop ret_list (token ∷ tokens) =
    let up = popped ret_list (pop_back ret_list) in
    let next =
      if same_text token (b'.' ∷ [])
      then ret_list
      else if same_text token (b'.' ∷ b'.' ∷ [])
      then up
      else ret_list ++ token ∷ [] in
    split_loop next tokens

unfoldable pub str_split : ℕ → List ℕ → List (List ℕ)
str_split delim str = split_loop [] (tokens_of delim [] str)

-- `while (list_size(list) > 0)`, with the rounds that are left. `ret_len` is the size of the buffer,
-- and `len` counts only the tokens for which it grew; `none` is a text that is written past its end.
unfoldable pub list2str_loop : List (List ℕ) → ℕ → ℕ → ℕ → List ℕ → List (List ℕ) → Option (List ℕ)
list2str_loop [] delim len ret_len ret list = some ret
list2str_loop (round ∷ rounds) delim len ret_len ret list = elim (pop_back list) [
  | none ↦ some ret
  | some (init, last) ↦
      let grows = ltb ret_len (len + length last + 1 + 1) in
      let len' = if grows then len + length last + 1 else len in
      let ret_len' = if grows then ret_len * 2 else ret_len in
      let ret' = ret ++ delim ∷ last in
      let rest = list2str_loop rounds delim len' ret_len' ret' init in
      if ltb (length ret') ret_len' then rest else none
]

-- As many rounds as the list has tokens.
unfoldable pub list2str : ℕ → List (List ℕ) → Option (List ℕ)
list2str delim list = list2str_loop list delim 0 256 [] list

unfoldable pub expand_path : List ℕ → Option (List ℕ)
expand_path input = list2str b'/' (str_split b'/' input)
