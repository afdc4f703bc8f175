-- ===== src/Queue/Links.antt =====
-- Chains of nodes through `next_readiness`, src/poll.rs.
use sickle.Base.{◌≡◌, ◌≢◌, refl, sym, Option, some, List, [], ◌∷◌, ◌++◌, All, update, arith, ◌∙◌}
use sickle.Queue.Defs.{Ptr, null, Node}

abbrev pub Heap : Type 0
Heap = Ptr → Option Node

-- There is a node at `p`, which leads to `next`.
pub record Points (nodes : Heap) (p next : Ptr) : Type 0 where
  pub node : Node
  pub live : nodes p ≡ some node
  pub leads : node.next_readiness ≡ next

-- From `p` through `ns`, in this order, to `head`, which leads nowhere.
abbrev pub Linked : Heap → (head p : Ptr) → List Ptr → Type 0
Linked nodes head p [] = Points nodes p null × (head ≡ p)
Linked nodes head p (x ∷ xs) = Points nodes p x × Linked nodes head x xs

abbrev pub Apart : Ptr → List Ptr → Type 0
Apart p ns = All (λ x. p ≢ x) ns

abbrev pub Distinct : List Ptr → Type 0
Distinct [] = Unit
Distinct (x ∷ xs) = Apart x xs × Distinct xs

-- A write elsewhere keeps what a node leads to.
pub Points-update :
    {nodes : Heap} {p next : Ptr} (k : Ptr) (o : Option Node)
    → p ≢ k
    → Points nodes p next
    → Points (update nodes k o) p next
Points-update k o ne pt = record {
  node = pt.node;
  live = ground (arith, pt.live);
  leads = pt.leads;
}

pub Linked-update :
    (nodes : Heap) (head p : Ptr) (ns : List Ptr) (k : Ptr) (o : Option Node)
    → k ≢ p
    → Apart k ns
    → Linked nodes head p ns
    → Linked (update nodes k o) head p ns
Linked-update nodes head p [] k o ne apart l = (Points-update k o (λ e. ne (sym e)) l.0, l.1)
Linked-update nodes head p (x ∷ xs) k o ne apart l =
    (Points-update k o (λ e. ne (sym e)) l.0, Linked-update nodes head x xs k o apart.0 apart.1 l.1)

-- The head is one of the nodes of the chain.
pub Linked-head {κ} :
    (P : Ptr → Type κ) (nodes : Heap) (head p : Ptr) (ns : List Ptr)
    → Linked nodes head p ns
    → P p
    → All P ns
    → P head
Linked-head P nodes head p [] l h hs = rw l.1 h
Linked-head P nodes head p (x ∷ xs) l h hs = Linked-head P nodes head x xs l.1 hs.0 hs.1

pub Linked-last :
    (nodes : Heap) (head p : Ptr) (ns : List Ptr) → Linked nodes head p ns → Points nodes head null
Linked-last nodes head p [] l = rw l.1 l.0
Linked-last nodes head p (x ∷ xs) l = Linked-last nodes head x xs l.1

-- The head is made to lead to a node `k` outside of the chain, which leads nowhere.
pub Linked-append :
    (nodes : Heap) (head p : Ptr) (ns : List Ptr) (k : Ptr) (h : Node)
    → Distinct (p ∷ ns)
    → k ≢ p
    → Apart k ns
    → Points nodes k null
    → Linked nodes head p ns
    → Linked (update nodes head (some (record h { next_readiness = k }))) k p (ns ++ k ∷ [])
Linked-append nodes head p [] k h d ne apart last l = (
  record { node = record h { next_readiness = k }; live = ground (arith, l.1); leads = refl },
  (Points-update head _ (λ e. ne (e ∙ l.1)) last, refl),
)
Linked-append nodes head p (x ∷ xs) k h d ne apart last l = (
  Points-update head _ (Linked-head (λ y. p ≢ y) nodes head x xs l.1 d.0.0 d.0.1) l.0,
  Linked-append nodes head x xs k h d.1 apart.0 apart.1 last l.1,
)
