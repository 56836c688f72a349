-- ===== src/Config.antt =====
-- daemon/src/Config.cpp: the routing of a working directory to an agent. `std::filesystem` is a
-- parameter.
use a2ad.Common.{
  ℕ, zero, suc, ◌+◌, ◌≡◌, Bool, true, false, ◌&&◌, ◌||◌, Option, none, some, List, [], ◌∷◌, ◌++◌,
  ltb, ◌==◌, text_eq, if◌then◌else◌, Text, bytes, length, take, drop, starts_with, find, is_empty,
}
pub mod Routing

pub record ProjectRule : Type 0 where
  pub path : Text
  pub default_agent : Text

-- `exact || under`
unfoldable pub covers : Text → Text → Bool
covers p c = c == p || ltb (length p) (length c) && starts_with c (p ++ bytes "/")

module _ (weakly_canonical : Text → Text) where
  abbrev pub rule_path : ProjectRule → Text
  rule_path r = weakly_canonical r.path

  -- One turn of the loop, on `best_path` and `best_agent`.
  unfoldable pub better : Text → ProjectRule → Text × Text → Text × Text
  better c r (best_path, best_agent) =
      if covers (rule_path r) c && ltb (length best_path) (length (rule_path r))
      then (rule_path r, r.default_agent)
      else (best_path, best_agent)

  unfoldable pub best : Text → List ProjectRule → Text × Text → Text × Text
  best c [] b = b
  best c (r ∷ rules) b = best c rules (better c r b)

  unfoldable pub default_agent_for : List ProjectRule → Text → Option Text
  default_agent_for projects cwd =
      let (path, agent) = best (weakly_canonical cwd) projects ([], []) in
      if is_empty agent then none else some agent
