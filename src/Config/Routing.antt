-- ===== src/Config/Routing.antt =====
-- The longest matching project decides.
use a2ad.Common.{
  ◌≤◌, ◌≡◌, refl, sym, ◌∙◌, ap, true, none, some, List, [], ◌∷◌, if◌then◌else◌, Text, length,
  is_empty, arith, ◌⊎◌, inl, inr,
}
use mathlib.Core.Path.{subst}
use a2ad.Config.{ProjectRule, covers, rule_path, better, best, default_agent_for}

module _ (weakly_canonical : Text → Text) where
  abbrev pub IsRule : ProjectRule → List ProjectRule → Type 0
  IsRule r [] = ⊥
  IsRule r (x ∷ rules) = (x ≡ r) ⊎ IsRule r rules

  -- The result of the loop is at least as long as where it began, and as any rule that covers the
  -- directory.
  better-longer :
      (c : Text) (r : ProjectRule) (b : Text × Text)
      → (length b.0 ≤ length (better weakly_canonical c r b).0)
        × (covers (rule_path weakly_canonical r) c ≡ true
            → length (rule_path weakly_canonical r) ≤ length (better weakly_canonical c r b).0)
  unfolding better
  better-longer c r (path, agent) = ground arith

  best-longer :
      (c : Text) (rules : List ProjectRule) (b : Text × Text)
      → length b.0 ≤ length (best weakly_canonical c rules b).0
  unfolding best
  best-longer c [] b = omega arith
  best-longer c (r ∷ rules) b =
      omega (arith, (better-longer c r b).0, best-longer c rules (better weakly_canonical c r b))

  best-longest :
      (c : Text) (rules : List ProjectRule) (b : Text × Text) (r : ProjectRule)
      → IsRule r rules
      → covers (rule_path weakly_canonical r) c ≡ true
      → length (rule_path weakly_canonical r) ≤ length (best weakly_canonical c rules b).0
  unfolding best
  best-longest c (x ∷ rules) b r (inl same) h =
      ground (
        arith,
        (better-longer c x b).1,
        best-longer c rules (better weakly_canonical c x b),
        same,
        h,
      )
  best-longest c (x ∷ rules) b r (inr later) h =
      best-longest c rules (better weakly_canonical c x b) r later h
  best-longest c [] b r i h = absurd i

  -- Where the pair of the loop comes from.
  abbrev Chosen : Text → List ProjectRule → Text × Text → Type 0
  Chosen c rules b =
      (r : ProjectRule) × IsRule r rules
      × (covers (rule_path weakly_canonical r) c ≡ true)
      × (rule_path weakly_canonical r ≡ b.0)
      × (r.default_agent ≡ b.1)

  better-Chosen :
      (c : Text) (r : ProjectRule) (b : Text × Text)
      → (better weakly_canonical c r b ≡ b)
        ⊎ ((covers (rule_path weakly_canonical r) c ≡ true)
            × (better weakly_canonical c r b ≡ (rule_path weakly_canonical r, r.default_agent)))
  unfolding better
  better-Chosen c r (path, agent) = ground arith

  best-Chosen :
      (c : Text) (rules : List ProjectRule) (b : Text × Text)
      → (best weakly_canonical c rules b ≡ b) ⊎ Chosen c rules (best weakly_canonical c rules b)
  unfolding best
  best-Chosen c [] b = inl refl
  best-Chosen c (x ∷ rules) b = elim (best-Chosen c rules (better weakly_canonical c x b)) [
    | inr (r, i, h, path, named) ↦ inr (r, inr i, h, path, named)
    | inl same ↦ elim (better-Chosen c x b) [
      | inl kept ↦ inl (same ∙ kept)
      | inr (h, took) ↦
          inr (
            x,
            inl refl,
            h,
            ap (λ q. q.0) (sym took ∙ sym same),
            ap (λ q. q.1) (sym took ∙ sym same),
          )
    ]
  ]

  -- The agent for a directory is that of a project that covers it and whose path is at least as
  -- long as that of any other project that covers it.
  pub default_agent-longest :
      (projects : List ProjectRule) (cwd agent : Text) (other : ProjectRule)
      → default_agent_for weakly_canonical projects cwd ≡ some agent
      → IsRule other projects
      → covers (rule_path weakly_canonical other) (weakly_canonical cwd) ≡ true
      → (r : ProjectRule) × IsRule r projects
        × (covers (rule_path weakly_canonical r) (weakly_canonical cwd) ≡ true)
        × (r.default_agent ≡ agent)
        × (length (rule_path weakly_canonical other) ≤ length (rule_path weakly_canonical r))
  unfolding default_agent_for
  default_agent-longest projects cwd agent other h j k =
      elim (best-Chosen (weakly_canonical cwd) projects ([], [])) [
        | inl nothing ↦ absurd (
            none-some
              (subst (λ q. (if is_empty q.1 then none else some q.1) ≡ some agent) nothing h))
        | inr (r, i, covered, path, named) ↦ (
          r,
          i,
          covered,
          named ∙ the_agent _ h,
          subst (λ q. length (rule_path weakly_canonical other) ≤ length q) (sym path)
              (best-longest (weakly_canonical cwd) projects ([], []) other j k),
        )
      ]
    where
      none-some : (none ≡ some agent) → ⊥
      none-some q = cc

      the_agent : (x : Text) → (if is_empty x then none else some x) ≡ some agent → x ≡ agent
      the_agent [] q = cc
      the_agent (c ∷ s) q = ground arith
