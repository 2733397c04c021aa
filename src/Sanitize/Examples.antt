-- ===== src/Sanitize/Examples.antt =====
-- Texts that are sanitized.
use security_agent.Prelude.{
  ℕ, ◌≡◌, refl, List, [], ◌∷◌, ◌++◌, none, some, codes, arith, drop, All, ◌≤◌,
}
use security_agent.Sanitize.{
  Rule, Span, slice, apply_mask, sort_by_start, resolve_spans, apply_spans, find_spans, sanitize,
}
use security_agent.Sanitize.Resolve.{StartsFrom, All-resolve_spans}
use security_agent.Sanitize.Groups.{Groups, resolve_spans-Groups}
use security_agent.Sanitize.Render.{sanitize-preserving, sanitize_leaks_tail}

abbrev hash_rule : Rule
hash_rule = record { name = "md5_hash"; finditer = λ t. (1, 3) ∷ []; priority = 1; mask = none }

abbrev email_rule : Rule
email_rule = record {
  name = "email";
  finditer = λ t. (0, 15) ∷ (17, 23) ∷ [];
  priority = 5;
  mask = some (codes "{user_first}***@{domain}");
}

abbrev secret_rule : Rule
secret_rule = record {
  name = "password_field";
  finditer = λ t. (9, 31) ∷ [];
  priority = 10;
  mask = some (codes "***");
}

abbrev line : List ℕ
line = codes "bob@corp.secret: a@b.cn hunter2"

abbrev outer : Span
outer = record { start = 0; stop = 15; rule = email_rule }

abbrev secret : Span
secret = record { start = 9; stop = 31; rule = secret_rule }

abbrev inner : Span
inner = record { start = 17; stop = 23; rule = email_rule }

leaked :
    sanitize (secret_rule ∷ email_rule ∷ []) line
    ≡ some (codes "bob@corp.secret:***a***@b.cn hunter2")
unfolding sanitize
leaked = refl

sanitize_leaks_tail_example :
    apply_spans line (resolve_spans (outer ∷ secret ∷ inner ∷ []))
    ≡ some (
        slice line 0 9
        ++ (codes "secret:***"
            ++ (slice line 31 17 ++ (codes "a***@b.cn" ++ (slice line 23 31 ++ drop 31 line)))))
unfolding apply_mask
sanitize_leaks_tail_example =
    sanitize_leaks_tail line outer secret inner (codes "secret:***") (codes "a***@b.cn")
      (omega arith) (omega arith) (omega arith) (omega arith) (omega arith) refl refl

sanitize-preserving_example : sanitize (hash_rule ∷ []) (codes "abcd") ≡ some (codes "abcd")
unfolding find_spans sort_by_start
sanitize-preserving_example =
    sanitize-preserving (hash_rule ∷ []) (codes "abcd") (omega arith, omega arith, tt) (refl, tt)

resolve_spans-Groups_example :
    StartsFrom 0 (sort_by_start (outer ∷ secret ∷ inner ∷ []))
    × Groups
        (sort_by_start (outer ∷ secret ∷ inner ∷ []))
        (resolve_spans (outer ∷ secret ∷ inner ∷ []))
resolve_spans-Groups_example = resolve_spans-Groups (outer ∷ secret ∷ inner ∷ [])

All-resolve_spans_example : All (λ s. s.start ≤ 20) (resolve_spans (outer ∷ secret ∷ inner ∷ []))
All-resolve_spans_example =
    All-resolve_spans (λ s. s.start ≤ 20) (outer ∷ secret ∷ inner ∷ [])
      (omega arith, (omega arith, (omega arith, tt)))
