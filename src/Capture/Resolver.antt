-- ===== src/Capture/Resolver.antt =====
-- The fixed resolver: the first rule that matches decides.
use lowping.Base.{◌≡◌, refl, ap, true, false, List, [], ◌∷◌, ◌++◌, All, Bool-cases, inl, inr, ◌⊎◌}
use lowping.Net.{SocketAddr}
use lowping.Capture.{
  Protocol, RedirectRule, passthrough, rewrite_to, rule_matches, redirect_target, resolve_fixed,
}

-- Either no rule matches and the packet passes, or the target is that of a matching rule before which
-- no rule matches.
pub resolve_fixed_total :
    (rules : List RedirectRule) (dst : SocketAddr) (protocol : Protocol)
    → (All (λ r. rule_matches dst protocol r ≡ false) rules
        × (resolve_fixed rules dst protocol ≡ passthrough))
      ⊎ ((before : List RedirectRule) × (r : RedirectRule) × (after : List RedirectRule) × (rules
            ≡ before ++ (r ∷ after))
          × All (λ q. rule_matches dst protocol q ≡ false) before
          × (rule_matches dst protocol r ≡ true)
          × (resolve_fixed rules dst protocol ≡ rewrite_to (redirect_target r)))
unfolding resolve_fixed
resolve_fixed_total [] dst protocol = inl (tt, refl)
resolve_fixed_total (r ∷ rules) dst protocol = elim (Bool-cases (rule_matches dst protocol r)) [
  | inl hit ↦ inr ([], r, rules, refl, tt, hit, rw hit refl)
  | inr miss ↦ elim (resolve_fixed_total rules dst protocol) [
    | inl (none_of, passed) ↦ inl ((miss, none_of), rw miss passed)
    | inr (before, q, after, split, skipped, hit, found) ↦
        inr (r ∷ before, q, after, ap (λ rs. r ∷ rs) split, (miss, skipped), hit, rw miss found)
  ]
]
