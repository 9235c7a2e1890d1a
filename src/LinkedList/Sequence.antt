-- ===== src/LinkedList/Sequence.antt =====
-- The sequence of nodes and values that a list of src/common/structures/list.c stands for.
use sector_os_re.LinkedList.{ℕ, List, ListNode, LinkedList}
use sector_os_re.Base.{◌∙◌, refl, arith, length, [], ◌++◌, ◌≢◌, ◌≡◌, ◌∷◌, ℕ, List}

abbrev pub first : List (ℕ × ℕ) → ℕ
first [] = 0
first ((b, v) ∷ bs) = b

abbrev pub last : ℕ → List (ℕ × ℕ) → ℕ
last a [] = a
last a ((b, v) ∷ bs) = last b bs

-- None of the nodes has the address `a`.
abbrev pub Absent : ℕ → List (ℕ × ℕ) → Type 0
Absent a [] = Unit
Absent a ((b, v) ∷ bs) = (a ≢ b) × Absent a bs

-- Nodes with these addresses and values, linked both ways behind `prev`, all different.
abbrev pub Linked : (ℕ → ListNode) → ℕ → List (ℕ × ℕ) → Type 0
Linked nodes prev [] = Unit
Linked nodes prev ((b, v) ∷ bs) =
    (b ≢ 0)
    × (nodes b ≡ record { val = v; next = first bs; prev = prev })
    × Absent b bs
    × Linked nodes b bs

pub record IsList (l : LinkedList) (bs : List (ℕ × ℕ)) : Type 0 where
  pub start : l.head ≡ first bs
  pub end : l.tail ≡ last 0 bs
  pub counted : l.size ≡ length bs
  pub linked : Linked l.nodes 0 bs

-- Nodes that two addresses do not belong to are not touched by changes there.
pub Linked-off :
    (bs : List (ℕ × ℕ)) (nodes nodes' : ℕ → ListNode) (p a b : ℕ)
    → ((c : ℕ) → c ≢ a → c ≢ b → nodes' c ≡ nodes c)
    → Absent a bs
    → Absent b bs
    → Linked nodes p bs
    → Linked nodes' p bs
Linked-off [] nodes nodes' p a b same outa outb l = tt
Linked-off ((c, v) ∷ bs) nodes nodes' p a b same (nea, outa) (neb, outb) (ne, here, out, l) = (
  ne,
  same c (omega arith) (omega arith) ∙ here,
  out,
  Linked-off bs nodes nodes' c a b same outa outb l,
)

pub Absent-last : (c a v : ℕ) (bs : List (ℕ × ℕ)) → Absent c ((a, v) ∷ bs) → c ≢ last a bs
Absent-last c a v [] (ne, out) = ne
Absent-last c a v ((b, w) ∷ bs) (ne, out) = Absent-last c b w bs out

pub Absent-append :
    (c t v : ℕ) (bs : List (ℕ × ℕ)) → Absent c bs → c ≢ t → Absent c (bs ++ (t, v) ∷ [])
Absent-append c t v [] out ne = (ne, tt)
Absent-append c t v ((b, w) ∷ bs) (neb, out) ne = (neb, Absent-append c t v bs out ne)

pub Absent-front :
    (c t v : ℕ) (bs : List (ℕ × ℕ)) → Absent c (bs ++ (t, v) ∷ []) → Absent c bs × (c ≢ t)
Absent-front c t v [] (ne, out) = (tt, ne)
Absent-front c t v ((b, w) ∷ bs) (neb, out) =
    let (front, ne) = Absent-front c t v bs out in ((neb, front), ne)

pub last-append : (a t v : ℕ) (bs : List (ℕ × ℕ)) → last a (bs ++ (t, v) ∷ []) ≡ t
last-append a t v [] = refl
last-append a t v ((b, w) ∷ bs) = last-append b t v bs

-- The last node is not NULL.
pub last-ne :
    (nodes : ℕ → ListNode) (p a v : ℕ) (bs : List (ℕ × ℕ))
    → Linked nodes p ((a, v) ∷ bs)
    → last a bs ≢ 0
last-ne nodes p a v [] l = l.0
last-ne nodes p a v ((b, w) ∷ bs) l = last-ne nodes a b w bs l.3
