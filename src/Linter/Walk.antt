-- ===== src/Linter/Walk.antt =====
-- `ast.walk` of poc_linter.py against the recursion through a tree: what is said of every node of it.
use security_agent.Prelude.{
  ℕ, zero, suc, ◌+◌, ◌≤◌, ◌≡◌, refl, List, [], ◌∷◌, ◌++◌, arith, All, All-append,
}
use security_agent.Linter.{
  Tree, Trees, ident, attribute, call, imports, imports_from, other, nil, cons, trees, children,
  size, size_trees, walk_queue, walk,
}

abbrev mutual
  -- A tree and all the trees in it.
  pub Everywhere : (Tree → Type 0) → Tree → Type 0
  Everywhere P (ident x) = P (ident x)
  Everywhere P (attribute t a) = P (attribute t a) × Everywhere P t
  Everywhere P (call f args) = P (call f args) × Everywhere P f × EverywhereIn P args
  Everywhere P (imports names) = P (imports names)
  Everywhere P (imports_from m names) = P (imports_from m names)
  Everywhere P (other ts) = P (other ts) × EverywhereIn P ts

  pub EverywhereIn : (Tree → Type 0) → Trees → Type 0
  EverywhereIn P nil = Unit
  EverywhereIn P (cons t ts) = Everywhere P t × EverywhereIn P ts

sizes : List Tree → ℕ
sizes [] = 0
sizes (t ∷ queue) = size t + sizes queue

sizes-append : (q r : List Tree) → sizes (q ++ r) ≡ sizes q + sizes r
unfolding sizes
sizes-append [] r = omega arith
sizes-append (t ∷ q) r = omega (arith, sizes-append q r)

sizes-trees : (ts : Trees) → sizes (trees ts) ≡ size_trees ts
unfolding sizes size size_trees
sizes-trees nil = refl
sizes-trees (cons t ts) = omega (arith, sizes-trees ts)

size-children : (t : Tree) → size t ≡ 1 + sizes (children t)
unfolding sizes size size_trees
size-children (ident x) = refl
size-children (attribute t a) = omega arith
size-children (call f args) = omega (arith, sizes-trees args)
size-children (imports names) = refl
size-children (imports_from m names) = refl
size-children (other ts) = omega (arith, sizes-trees ts)

module _ (P : Tree → Type 0) where
  In→All : (ts : Trees) → EverywhereIn P ts → All (Everywhere P) (trees ts)
  In→All nil h = tt
  In→All (cons t ts) h = (h.0, In→All ts h.1)

  All→In : (ts : Trees) → All (Everywhere P) (trees ts) → EverywhereIn P ts
  All→In nil h = tt
  All→In (cons t ts) h = (h.0, All→In ts h.1)

  root : (t : Tree) → Everywhere P t → P t × All (Everywhere P) (children t)
  root (ident x) h = (h, tt)
  root (attribute t a) h = (h.0, (h.1, tt))
  root (call f args) (p, hf, hs) = (p, (hf, In→All args hs))
  root (imports names) h = (h, tt)
  root (imports_from m names) h = (h, tt)
  root (other ts) (p, hs) = (p, In→All ts hs)

  grow : (t : Tree) → P t → All (Everywhere P) (children t) → Everywhere P t
  grow (ident x) p h = p
  grow (attribute t a) p h = (p, h.0)
  grow (call f args) p h = (p, h.0, All→In args h.1)
  grow (imports names) p h = p
  grow (imports_from m names) p h = p
  grow (other ts) p h = (p, All→In ts h)

  split :
      (q r : List Tree) → All (Everywhere P) (q ++ r) → All (Everywhere P) q × All (Everywhere P) r
  split [] r h = (tt, h)
  split (t ∷ q) r h = let (hq, hr) = split q r h.1 in ((h.0, hq), hr)

  queue-Everywhere :
      (f : ℕ) (q : List Tree) → sizes q ≤ f → All P (walk_queue f q) → All (Everywhere P) q
  unfolding walk_queue sizes
  queue-Everywhere f [] l h = tt
  queue-Everywhere zero (t ∷ q) l h = absurd (omega (arith, size-children t))
  queue-Everywhere (suc f) (t ∷ q) l h =
      let fits : sizes (q ++ children t) ≤ f =
        omega (arith, size-children t, sizes-append q (children t)) in
      let (hq, hr) = split q (children t) (queue-Everywhere f (q ++ children t) fits h.1) in
      (grow t h.0 hr, hq)

  Everywhere-queue : (f : ℕ) (q : List Tree) → All (Everywhere P) q → All P (walk_queue f q)
  unfolding walk_queue
  Everywhere-queue zero q h = tt
  Everywhere-queue (suc f) [] h = tt
  Everywhere-queue (suc f) (t ∷ q) h =
      let (p, below) = root t h.0 in
      (p, Everywhere-queue f (q ++ children t) (All-append (Everywhere P) q (children t) h.1 below))

  pub walk→Everywhere : (t : Tree) → All P (walk t) → Everywhere P t
  unfolding walk sizes
  walk→Everywhere t h = (queue-Everywhere (size t) (t ∷ []) (omega arith) h).0

  pub Everywhere→walk : (t : Tree) → Everywhere P t → All P (walk t)
  unfolding walk
  Everywhere→walk t h = Everywhere-queue (size t) (t ∷ []) (h, tt)
