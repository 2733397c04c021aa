-- ===== src/Sanitize/Render.antt =====
-- `sanitize` as a whole: what stays of a text.
use security_agent.Prelude.{
  ℕ, ◌≤◌, ◌<◌, ◌≡◌, refl, List, [], ◌∷◌, ◌++◌, none, some, arith, drop, All, slice-append-drop,
}
use security_agent.Sanitize.{
  Rule, Span, slice, mask_matched, apply_mask, sort_by_start, resolve_spans, render, apply_spans,
  find_spans, sanitize,
}
use security_agent.Sanitize.Resolve.{
  DisjointFrom, resolve_spans-disjoint, resolve_spans-nested, All-sort, StartsFrom-sort,
  sort-StartsFrom,
}

-- No rule of the span masks: a rule for hashes, which are left as they are.
abbrev pub IsPreserving : Span → Type 0
IsPreserving s = s.rule.mask ≡ none

render-preserving :
    (text : List ℕ) (n : ℕ) (ss : List Span)
    → DisjointFrom n ss
    → All IsPreserving ss
    → render text n ss ≡ some (drop n text)
unfolding render apply_mask mask_matched
render-preserving text n [] h p = refl
render-preserving text n (s ∷ ss) h p = rw (
  p.0,
  render-preserving text s.stop ss h.2 p.1,
  slice-append-drop s.start s.stop text h.1,
  slice-append-drop n s.start text h.0,
)

render-sorted :
    (text : List ℕ) (rs : List Span)
    → sort_by_start rs ≡ rs
    → apply_spans text rs ≡ render text 0 rs
unfolding apply_spans render
render-sorted text [] e = refl
render-sorted text (s ∷ rs) e = rw e

-- Where the matches of the rules do not overlap and no rule that matched masks, `sanitize` returns
-- the text as it was: what `_apply_spans` cuts apart it puts together again.
pub sanitize-preserving :
    (rules : List Rule) (text : List ℕ)
    → DisjointFrom 0 (sort_by_start (find_spans rules text))
    → All IsPreserving (find_spans rules text)
    → sanitize rules text ≡ some text
unfolding sanitize
sanitize-preserving rules text h p =
    let spans = find_spans rules text in
    rw
      (
        resolve_spans-disjoint spans h,
        render-sorted text (sort_by_start spans)
            (sort-StartsFrom 0 (sort_by_start spans) (StartsFrom-sort spans)),
      )
      (render-preserving text 0 (sort_by_start spans) h (All-sort IsPreserving spans p))

-- A span `a` is hit by a span `b` of higher priority that starts in it and ends behind it, and a
-- third span `c` lies behind `a` and ends inside `b`. Then the result ends with the whole text from
-- the end of `c` on, unmasked, although `b`, which won against `a`, covers it up to its own end.
pub sanitize_leaks_tail :
    (text : List ℕ) (a b c : Span) (mask_b mask_c : List ℕ)
    → a.start ≤ b.start
    → b.start < a.stop
    → a.stop ≤ c.start
    → c.stop < b.stop
    → a.rule.priority < b.rule.priority
    → apply_mask text b ≡ some mask_b
    → apply_mask text c ≡ some mask_c
    → apply_spans text (resolve_spans (a ∷ b ∷ c ∷ []))
      ≡ some (
          slice text 0 b.start
          ++ (mask_b
              ++ (slice text b.stop c.start
                  ++ (mask_c ++ (slice text c.stop b.stop ++ drop b.stop text)))))
sanitize_leaks_tail text a b c mask_b mask_c ab ba ac cb p mb mc =
    rw
      (
        resolve_spans-nested a b c ab ba ac p,
        render-sorted text (b ∷ c ∷ [])
            (sort-StartsFrom 0 (b ∷ c ∷ []) (omega arith, (omega arith, tt))),
      )
      (unfold render in rw (mb, mc, slice-append-drop c.stop b.stop text (omega arith)))
