-- ===== src/Process/Removal.antt =====
-- What the process list is after a process has left it.
use sector_os_re.Base.{
  ◌∙◌, sym, ap, arith, [], inr, ◌≡◌, inl, ◌==◌, Bool-cases, ◌≢◌, update, ◌∷◌, List, ℕ,
}
use sector_os_re.Process.{Entry, Pcb, remove_node}
use sector_os_re.Process.Listed.{
  IsListed-wider, IsListed-update, Without-not_held, Holds, IsListed, Without,
}

pub Holds-remove_node :
    (node : ℕ) (es : List Entry) (a : ℕ) → Holds a (remove_node node es) → Holds a es
unfolding remove_node
Holds-remove_node node [] a held = held
Holds-remove_node node (t ∷ rest) a held = elim (Bool-cases (t.node == node)) [
  | inl here ↦ inr (rw here at held)
  | inr other ↦
      let on : Holds a (t ∷ remove_node node rest) = rw other at held in
      elim on [ inl same ↦ inl same | inr later ↦ inr (Holds-remove_node node rest a later) ]
]

-- What is not the process that left is still there.
pub remove_node-Holds :
    (pcbs : ℕ → Pcb) (top : ℕ) (node : ℕ) (es : List Entry) (a : ℕ)
    → IsListed pcbs top es
    → (pcbs a).self ≢ node
    → Holds a es
    → Holds a (remove_node node es)
unfolding remove_node
remove_node-Holds pcbs top node [] a listed other held = held
remove_node-Holds pcbs top node (t ∷ rest) a (entry, lone, listed) other held =
    elim (Bool-cases (t.node == node)) [
      | inl here ↦
          let e : t.node ≡ node = ground arith in
          elim held [
            | inl same ↦ absurd (other (ap (λ b. (pcbs b).self) (sym same) ∙ entry.knows_node ∙ e))
            | inr later ↦ rw here later
          ]
      | inr off ↦ rw off (elim held [
        | inl same ↦ inl same
        | inr later ↦ inr (remove_node-Holds pcbs (pcbs t.pcb).pid node rest a listed other later)
      ])
    ]

Without-remove_node :
    (node other : ℕ) (es : List Entry) → Without other es → Without other (remove_node node es)
unfolding remove_node
Without-remove_node node other [] without = tt
Without-remove_node node other (t ∷ rest) (first, without) = elim (Bool-cases (t.node == node)) [
  | inl here ↦ rw here without
  | inr off ↦ rw off (first, Without-remove_node node other rest without)
]

-- The node of a process is no longer on the list when it has been removed.
Without-removed :
    (pcbs : ℕ → Pcb) (top node : ℕ) (es : List Entry)
    → IsListed pcbs top es
    → Without node (remove_node node es)
unfolding remove_node
Without-removed pcbs top node [] listed = tt
Without-removed pcbs top node (t ∷ rest) (entry, lone, listed) =
    elim (Bool-cases (t.node == node)) [
      | inl here ↦ let e : t.node ≡ node = ground arith in rw (here, ← e) lone
      | inr off ↦ rw off (ground arith, Without-removed pcbs (pcbs t.pcb).pid node rest listed)
    ]

IsListed-remove_node :
    (pcbs : ℕ → Pcb) (top node : ℕ) (es : List Entry)
    → IsListed pcbs top es
    → IsListed pcbs top (remove_node node es)
unfolding remove_node
IsListed-remove_node pcbs top node [] listed = tt
IsListed-remove_node pcbs top node (t ∷ rest) (entry, lone, listed) =
    elim (Bool-cases (t.node == node)) [
      | inl here ↦
          rw here
            (IsListed-wider pcbs (pcbs t.pcb).pid top rest (omega (arith, entry.pid_below)) listed)
      | inr off ↦ rw off (
        entry,
        Without-remove_node node t.node rest lone,
        IsListed-remove_node pcbs (pcbs t.pcb).pid node rest listed,
      )
    ]

-- The process at `c`, whatever becomes of its control block, is off the list by its node.
pub removed_off :
    (pcbs : ℕ → Pcb) (top c : ℕ) (es : List Entry)
    → IsListed pcbs top es
    → ¬ Holds c (remove_node (pcbs c).self es)
removed_off pcbs top c es listed =
    Without-not_held pcbs top (remove_node (pcbs c).self es) c
      (IsListed-remove_node pcbs top (pcbs c).self es listed)
      (Without-removed pcbs top (pcbs c).self es listed)

pub removed-IsListed :
    (pcbs : ℕ → Pcb) (top c : ℕ) (p : Pcb) (es : List Entry)
    → IsListed pcbs top es
    → IsListed (update pcbs c p) top (remove_node (pcbs c).self es)
removed-IsListed pcbs top c p es listed =
    IsListed-update pcbs top c p (remove_node (pcbs c).self es) (removed_off pcbs top c es listed)
      (IsListed-remove_node pcbs top (pcbs c).self es listed)
