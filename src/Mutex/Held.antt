-- ===== src/Mutex/Held.antt =====
-- Where the threads at a mutex stand while it is held, and how each step changes that.
use os_p.Base.{
  ℕ, ◌≡◌, ◌≢◌, refl, sym, ap, ◌∙◌, subst, ◌⊎◌, inl, inr, List, [], ◌∷◌, ◌++◌, eq_cases, ==_false,
  ==_refl,
}
use os_p.SimpleQueue.Links.{NotIn, Distinct}
use os_p.SimpleQueue.Ends.{NotIn-snoc, Distinct-snoc}
use os_p.Mutex.{Status, outside, waiting, inside, set_status}

-- Where a thread other than the holder stands: it waits in the queue, or is outside and not in it.
abbrev pub Queued : Status → ℕ → List ℕ → Type 0
Queued s x q = ((s ≡ waiting) × (¬ NotIn x q)) ⊎ ((s ≡ outside) × NotIn x q)

-- The lock is held by `holder`, which is inside or about to be.
pub record Held (status : ℕ → Status) (holder : ℕ) (q : List ℕ) : Type 0 where
  pub owner : (status holder ≡ inside) ⊎ (status holder ≡ waiting)
  pub not_queued : NotIn holder q
  pub distinct : Distinct q
  pub others : (x : ℕ) → x ≢ holder → Queued (status x) x q

pub outside≢inside : outside ≢ inside
outside≢inside e = cc

pub outside≢waiting : outside ≢ waiting
outside≢waiting e = cc

pub waiting≢inside : waiting ≢ inside
waiting≢inside e = cc

set_self : (status : ℕ → Status) (t : ℕ) (s : Status) → set_status status t s t ≡ s
set_self status t s = rw (==_refl t)

set_ne : (status : ℕ → Status) (t x : ℕ) (s : Status) → x ≢ t → set_status status t s x ≡ status x
set_ne status t x s n = rw (==_false x t n)

-- A lock of a free mutex.
pub enter-Held :
    (status : ℕ → Status) (t : ℕ)
    → ((x : ℕ) → status x ≡ outside)
    → Held (set_status status t inside) t []
enter-Held status t out = record {
  owner = inl (set_self status t inside);
  not_queued = tt;
  distinct = tt;
  others = λ x n. inr (set_ne status t x inside n ∙ out x, tt);
}

NotIn-snoc_self : (x : ℕ) (q : List ℕ) → ¬ NotIn x (q ++ (x ∷ []))
NotIn-snoc_self x [] h = h.0 refl
NotIn-snoc_self x (y ∷ q) h = NotIn-snoc_self x q h.1

NotIn-init : (x t : ℕ) (q : List ℕ) → NotIn x (q ++ (t ∷ [])) → NotIn x q
NotIn-init x t [] h = tt
NotIn-init x t (y ∷ q) h = (h.0, NotIn-init x t q h.1)

-- A thread outside is none of those at the lock.
outside-Queued :
    (status : ℕ → Status) (h t : ℕ) (q : List ℕ)
    → Held status h q
    → status t ≡ outside
    → (t ≢ h) × NotIn t q
outside-Queued status h t q v o = (ne, apart (v.others t ne))
  where
    ne : t ≢ h
    ne e = absurd (elim v.owner [
      | inl i ↦ outside≢inside (sym o ∙ ap status e ∙ i)
      | inr i ↦ outside≢waiting (sym o ∙ ap status e ∙ i)
    ])

    apart : Queued (status t) t q → NotIn t q
    apart (inl (w, _)) = absurd (outside≢waiting (sym o ∙ w))
    apart (inr (_, n)) = n

-- A thread that joins the queue.
pub block-Held :
    (status : ℕ → Status) (h t : ℕ) (q : List ℕ)
    → Held status h q
    → status t ≡ outside
    → Held (set_status status t waiting) h (q ++ (t ∷ []))
block-Held status h t q v o =
    let (ne, apart) = outside-Queued status h t q v o in
    record {
      owner =
          subst (λ s. (s ≡ inside) ⊎ (s ≡ waiting))
            (sym (set_ne status t h waiting (λ e. ne (sym e)))) v.owner;
      not_queued = NotIn-snoc h t q v.not_queued (λ e. ne (sym e));
      distinct = Distinct-snoc t q v.distinct apart;
      others = λ x n. place x n (eq_cases x t);
    }
  where
    keep : (x : ℕ) → x ≢ t → Queued (status x) x q → Queued (status x) x (q ++ (t ∷ []))
    keep x n (inl (w, i)) = inl (w, λ z. i (NotIn-init x t q z))
    keep x n (inr (w, i)) = inr (w, NotIn-snoc x t q i n)

    place :
        (x : ℕ)
        → x ≢ h
        → (x ≡ t) ⊎ (x ≢ t)
        → Queued (set_status status t waiting x) x (q ++ (t ∷ []))
    place x n (inl e) =
        subst (λ z. Queued (set_status status t waiting z) z (q ++ (t ∷ []))) (sym e)
          (inl (set_self status t waiting, NotIn-snoc_self t q))
    place x n (inr d) =
        subst (λ s. Queued s x (q ++ (t ∷ []))) (sym (set_ne status t x waiting d))
          (keep x d (v.others x n))

-- The holder comes out of its loop.
pub resume-Held :
    (status : ℕ → Status) (h : ℕ) (q : List ℕ)
    → Held status h q
    → Held (set_status status h inside) h q
resume-Held status h q v = record {
  owner = inl (set_self status h inside);
  not_queued = v.not_queued;
  distinct = v.distinct;
  others = λ x n. subst (λ s. Queued s x q) (sym (set_ne status h x inside n)) (v.others x n);
}

-- A thread inside is the holder.
pub inside-holder :
    (status : ℕ → Status) (h t : ℕ) (q : List ℕ) → Held status h q → status t ≡ inside → t ≡ h
inside-holder status h t q v i = elim (eq_cases t h) [
  | inl e ↦ e
  | inr n ↦ elim (v.others t n) [
    | inl (w, _) ↦ absurd (waiting≢inside (sym w ∙ i))
    | inr (o, _) ↦ absurd (outside≢inside (sym o ∙ i))
  ]
]

-- The holder leaves with nobody in the queue.
pub leave_last :
    (status : ℕ → Status) (h : ℕ)
    → Held status h []
    → (x : ℕ) → set_status status h outside x ≡ outside
leave_last status h v x = elim (eq_cases x h) [
  | inl e ↦ subst (λ z. set_status status h outside z ≡ outside) (sym e) (set_self status h outside)
  | inr n ↦
      set_ne status h x outside n
      ∙ (elim (v.others x n) [ inl (_, i) ↦ absurd (i tt) | inr (o, _) ↦ o ])
]

-- The holder leaves, and the first of the queue becomes the holder.
pub leave_next :
    (status : ℕ → Status) (h u : ℕ) (q : List ℕ)
    → Held status h (u ∷ q)
    → Held (set_status status h outside) u q
leave_next status h u q v = record {
  owner = inr (
      set_ne status h u outside (λ e. v.not_queued.0 (sym e))
      ∙ first (v.others u (λ e. v.not_queued.0 (sym e))));
  not_queued = v.distinct.0;
  distinct = v.distinct.1;
  others = λ x n. place x n (eq_cases x h);
}
  where
    first : Queued (status u) u (u ∷ q) → status u ≡ waiting
    first (inl (w, _)) = w
    first (inr (_, n)) = absurd (n.0 refl)

    keep : (x : ℕ) → x ≢ u → Queued (status x) x (u ∷ q) → Queued (status x) x q
    keep x n (inl (w, i)) = inl (w, λ z. i (n, z))
    keep x n (inr (o, i)) = inr (o, i.1)

    place : (x : ℕ) → x ≢ u → (x ≡ h) ⊎ (x ≢ h) → Queued (set_status status h outside x) x q
    place x n (inl e) =
        subst (λ z. Queued (set_status status h outside z) z q) (sym e)
          (inr (set_self status h outside, v.not_queued.1))
    place x n (inr d) =
        subst (λ s. Queued s x q) (sym (set_ne status h x outside d)) (keep x n (v.others x d))
