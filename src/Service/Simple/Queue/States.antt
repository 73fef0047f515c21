-- ===== src/Service/Simple/Queue/States.antt =====
-- The states of the jobs in the cells, as a list.
use ippper_rs.Prelude.{
  ℕ, zero, suc, ◌<◌, ◌≤◌, ◌≡◌, refl, sym, ap, ◌∙◌, inl, inr, List, [], ◌∷◌, ◌++◌, some, length,
  length-append, get_elem?, set, get_elem?-append_left, get_elem?-append_last, arith, eqb,
  Bool-cases, eqb_iff,
}
use ippper_rs.Ipp.Enums.{JobState}
use ippper_rs.Service.Simple.Info.{JobInfo}
use ippper_rs.Service.Simple.State.{update}

unfoldable pub states : (ℕ → JobInfo) → ℕ → List JobState
states cells zero = []
states cells (suc n) = states cells n ++ (cells n).state ∷ []

set-append_left :
    (xs ys : List JobState) (i : ℕ) (v : JobState)
    → i < length xs
    → set (xs ++ ys) i v ≡ set xs i v ++ ys
set-append_left [] ys i v lt = absurd (omega arith)
set-append_left (x ∷ xs) ys zero v lt = refl
set-append_left (x ∷ xs) ys (suc i) v lt = ap (λ t. x ∷ t) (set-append_left xs ys i v (omega arith))

set-append_last :
    (xs : List JobState) (x v : JobState) → set (xs ++ x ∷ []) (length xs) v ≡ xs ++ v ∷ []
set-append_last [] x v = refl
set-append_last (x ∷ xs) y v = ap (λ t. x ∷ t) (set-append_last xs y v)

module _ (cells : ℕ → JobInfo) where
  pub length-states : (n : ℕ) → length (states cells n) ≡ n
  unfolding states
  length-states zero = refl
  length-states (suc n) =
      length-append (states cells n) ((cells n).state ∷ []) ∙ omega (arith, length-states n)

  pub get_elem?-states : (n h : ℕ) → h < n → get_elem? (states cells n) h ≡ some (cells h).state
  unfolding states
  get_elem?-states zero h lt = absurd (omega arith)
  get_elem?-states (suc n) h lt = elim (Bool-cases (eqb h n)) [
    | inl last ↦
        let same : h ≡ length (states cells n) = (eqb_iff h n).0 last ∙ sym (length-states n) in
        ap (get_elem? (states cells n ++ (cells n).state ∷ [])) same
        ∙ get_elem?-append_last (states cells n) (cells n).state
        ∙ ap (λ i. some (cells i).state) (sym ((eqb_iff h n).0 last))
    | inr before ↦
        let lt' : h < n = ground (arith, eqb_iff h n) in
        get_elem?-append_left (states cells n) ((cells n).state ∷ []) h
          (omega (arith, length-states n))
        ∙ get_elem?-states n h lt'
  ]

  -- A write behind the jobs.
  pub states-update_out :
      (n h : ℕ) (job : JobInfo) → n ≤ h → states (update cells h job) n ≡ states cells n
  unfolding states
  states-update_out zero h job le = refl
  states-update_out (suc n) h job le =
      let same : update cells h job n ≡ cells n = ground arith in
      rw (same, states-update_out n h job (omega arith)) refl

  pub states-update :
      (n h : ℕ) (job : JobInfo)
      → h < n
      → states (update cells h job) n ≡ set (states cells n) h job.state
  unfolding states
  states-update zero h job lt = absurd (omega arith)
  states-update (suc n) h job lt = elim (Bool-cases (eqb h n)) [
    | inl last ↦
        let here : h ≡ n = (eqb_iff h n).0 last in
        let new : update cells h job n ≡ job = ground arith in
        let at : n ≡ length (states cells n) = sym (length-states n) in
        rw (new, states-update_out n h job (omega arith), here ∙ at)
          (sym (set-append_last (states cells n) (cells n).state job.state))
    | inr before ↦
        let lt' : h < n = ground (arith, eqb_iff h n) in
        let old : update cells h job n ≡ cells n = ground (arith, eqb_iff h n) in
        rw (old, states-update n h job lt')
          (sym (
            set-append_left (states cells n) ((cells n).state ∷ []) h job.state
              (omega (arith, length-states n))))
  ]
