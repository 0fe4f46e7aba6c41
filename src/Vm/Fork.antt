-- ===== src/Vm/Fork.antt =====
-- What the copy of an address space for fork() takes, and what its release gives back.
use os_p.Base.{
  ℕ, zero, suc, ◌≡◌, inl, inr, refl, sym, ap, ◌∙◌, Bool, true, false, ◌||◌, none, some, ◌==◌,
  if◌then◌else◌, eq_cases, ==_iff, ==_false,
}
use os_p.Base.Ensures.{Ensures, Ensures-some, Ensures-elim}
use os_p.Pm.{Pm, get_frames_raw}
use os_p.Vm.{Pte, Pt, or_frame, put_entry}
use os_p.Vm.Copy.{clone_entries}
use os_p.Vm.Exit.{get_frames_raw-left}

-- The second table has the pages of the first, and those that are zero-filled on demand marked so.
pub record Copies (pt pt' : Pt) : Type 0 where
  pub present : (j : ℕ) → (pt' j).present ≡ (pt j).present
  pub zfod : (j : ℕ) → (pt j).zfod ≡ true → (pt' j).zfod ≡ true

or_true : (a b : Bool) → b ≡ true → (a || b) ≡ true
or_true true b h = refl
or_true false b h = h

Copies-put_entry :
    (pt pt' : Pt) (n f : ℕ)
    → Copies pt pt'
    → (pt n).present ≡ true
    → Copies pt (put_entry pt' n (or_frame f (record (pt n) { frame = 0 })))
Copies-put_entry pt pt' n f c on = record { present = present; zfod = zfod }
  where
    e : Pte
    e = or_frame f (record (pt n) { frame = 0 })

    entry : (j : ℕ) → (b : Bool) → (j == n) ≡ b → put_entry pt' n e j ≡ (if b then e else pt' j)
    entry j b h = ap (λ b. if b then e else pt' j) h

    present : (j : ℕ) → (put_entry pt' n e j).present ≡ (pt j).present
    present j = elim (eq_cases j n) [
      | inl at ↦
          ap (λ x. x.present) (entry j true ((==_iff j n).1 at))
          ∙ or_true _ _ on
          ∙ sym on
          ∙ ap (λ i. (pt i).present) (sym at)
      | inr far ↦ ap (λ x. x.present) (entry j false (==_false j n far)) ∙ c.present j
    ]

    zfod : (j : ℕ) → (pt j).zfod ≡ true → (put_entry pt' n e j).zfod ≡ true
    zfod j z = elim (eq_cases j n) [
      | inl at ↦
          ap (λ x. x.zfod) (entry j true ((==_iff j n).1 at))
          ∙ or_true _ _ (ap (λ i. (pt i).zfod) (sym at) ∙ z)
      | inr far ↦ ap (λ x. x.zfod) (entry j false (==_false j n far)) ∙ c.zfod j z
    ]

-- A copied table, with the number of reservations as it was.
abbrev pub TableDone : Pt → Pm → Pt × Pm → Type 0
TableDone pt p r = Copies pt r.0 × (r.1.left ≡ p.left)

pub clone_entries-Copies :
    (n : ℕ) (pt : Pt) (p : Pm) → Ensures (TableDone pt p) (clone_entries n pt p)
unfolding clone_entries
clone_entries-Copies zero pt p =
    Ensures-some _ (pt, p) (record { present = λ j. refl; zfod = λ j z. z }, refl)
clone_entries-Copies (suc n) pt p =
    Ensures-elim (TableDone pt p) (TableDone pt p) (clone_entries n pt p) _
      (clone_entries-Copies n pt p) (λ r h. entry r h (pt n).present refl)
  where
    entry :
        (r : Pt × Pm)
        → TableDone pt p r
        → (b : Bool) → (pt n).present ≡ b
        → Ensures (TableDone pt p) (elim b [
          | false ↦ some r
          | true ↦ elim (get_frames_raw 2 (r.1)) [
            | none ↦ none
            | some g ↦ some (put_entry (r.0) n (or_frame (g.0) (record (pt n) { frame = 0 })), g.1)
          ]
        ])
    entry r h false off = Ensures-some _ r h
    entry r h true on =
        Ensures-elim (λ g. g.1.left ≡ r.1.left) (TableDone pt p) (get_frames_raw 2 r.1) _
          (get_frames_raw-left 2 r.1)
          (λ g k.
            Ensures-some _ (put_entry r.0 n (or_frame g.0 (record (pt n) { frame = 0 })), g.1)
              (Copies-put_entry pt r.0 n g.0 h.0 on, k ∙ h.1))
