-- ===== src/Version/Examples.antt =====
-- Runs of the comparison.
use security_agent.Prelude.{codes, ◌≡◌, refl, Ordering, true}
use security_agent.Version.{is_digit, int_of, compare_versions, version_matches, compare_digit}
use security_agent.Version.Comparison.{fits, compare_nat}
use security_agent.Version.Order.{compare_versions-transitive}
use security_agent.Version.Numbers.{compare_digit-eq-compare_nat}

-- A revision puts a version after the one without it.
rc_after : compare_versions (codes "1.18.0-rc1") (codes "1.18.0") ≡ Ordering.gt
unfolding compare_versions
rc_after = refl

epoch_first : compare_versions (codes "1:0.1") (codes "0.9") ≡ Ordering.gt
unfolding compare_versions
epoch_first = refl

tilde_first : compare_versions (codes "1.0~rc1") (codes "1.0") ≡ Ordering.lt
unfolding compare_versions
tilde_first = refl

revision_order : compare_versions (codes "1.2.3-1") (codes "1.2.3-2") ≡ Ordering.lt
unfolding compare_versions
revision_order = refl

numeric_chunks : compare_versions (codes "1.010") (codes "1.9") ≡ Ordering.gt
unfolding compare_versions
numeric_chunks = refl

match_lt : version_matches (codes "1.9") "LT" (codes "1.10") ≡ true
unfolding version_matches
match_lt = refl

compare_versions-transitive_example :
    fits
      (compare_versions (codes "1.9") (codes "1.10"))
      (compare_versions (codes "1.10") (codes "2:0"))
      (compare_versions (codes "1.9") (codes "2:0"))
    ≡ true
compare_versions-transitive_example =
    compare_versions-transitive (codes "1.9") (codes "1.10") (codes "2:0")

compare_digit-eq-compare_nat_example :
    compare_digit (codes "010") (codes "9")
    ≡ compare_nat (int_of 0 (codes "010")) (int_of 0 (codes "9"))
unfolding is_digit
compare_digit-eq-compare_nat_example =
    compare_digit-eq-compare_nat (codes "010") (codes "9") (refl, (refl, (refl, tt))) (refl, tt)
