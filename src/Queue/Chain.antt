-- ===== src/Queue/Chain.antt =====
-- Chains of nodes: what a queue's `header` and `tail` span.
use sp327_alonso_a.Common.{
  ◌≡◌, refl, sym, ap, ◌∙◌, ◌≢◌, Bool, true, false, ◌||◌, Option, none, some, List, [], ◌∷◌, ◌++◌,
  arith, ◌==◌,
}
use mathlib.Core.Bool.{false≢true}
use sp327_alonso_a.Queue.Memory.{Ptr, null, Node, node}

-- address and `data` of each node, in order
abbrev pub Cells : Type 0
Cells = List (Ptr × Ptr)

abbrev pub has : Ptr → Cells → Bool
has a [] = false
has a ((p, _) ∷ cs) = (a == p) || has a cs

-- The node `p` holds `v`, and its `next` pointers lead through the distinct nodes `cs` to `last`.
-- What the `next` of `last` holds is left open: the code leaves a loop or a stale pointer there.
abbrev pub Chain : (Ptr → Option Node) → Ptr → Ptr → Cells → Ptr → Type 0
Chain h p v [] last = (n : Ptr) × (h p ≡ some (node v n)) × (p ≢ null) × (last ≡ p)
Chain h p v ((q, d) ∷ cs) last =
    (h p ≡ some (node v q)) × (p ≢ null) × (has p ((q, d) ∷ cs) ≡ false) × Chain h q d cs last

has-append : (a : Ptr) (xs ys : Cells) → has a (xs ++ ys) ≡ (has a xs || has a ys)
has-append a [] ys = refl
has-append a ((p, d) ∷ xs) ys = ground (arith, has-append a xs ys)

pub ne_of_has : (a b : Ptr) (cs : Cells) → has a cs ≡ true → has b cs ≡ false → a ≢ b
ne_of_has a b cs i o x = false≢true (sym o ∙ ap (λ z. has z cs) (sym x) ∙ i)

-- The last node of a chain is allocated, and is the first or one of the rest.
pub record LastNode (h : Ptr → Option Node) (p : Ptr) (cs : Cells) (last : Ptr) : Type 0 where
  pub value : Ptr
  pub next : Ptr
  pub holds : h last ≡ some (node value next)
  pub ne_null : last ≢ null
  pub among : ((last == p) || has last cs) ≡ true

module _ {h : Ptr → Option Node} where
  pub Chain-last :
      (p v : Ptr) (cs : Cells) (last : Ptr) → Chain h p v cs last → LastNode h p cs last
  Chain-last p v [] last c = record {
    value = v;
    next = c.0;
    holds = ground arith;
    ne_null = ground arith;
    among = ground arith;
  }
  Chain-last p v ((q, d) ∷ cs) last c =
      let l = Chain-last q d cs last c.3 in
      record {
        value = l.value;
        next = l.next;
        holds = l.holds;
        ne_null = l.ne_null;
        among = ground (arith, l.among);
      }

  -- A chain survives a change that spares its nodes.
  pub Chain-frame :
      {g : Ptr → Option Node} (p v : Ptr) (cs : Cells) (last : Ptr)
      → Chain h p v cs last
      → ((a : Ptr) → ((a == p) || has a cs) ≡ true → g a ≡ h a)
      → Chain g p v cs last
  Chain-frame p v [] last c same = (c.0, ground (arith, same p), c.2, c.3)
  Chain-frame p v ((q, d) ∷ cs) last c same =
      (ground (arith, same p), c.1, c.2, Chain-frame q d cs last c.3 (λ a i. same a (ground arith)))

  -- Linking a node that is not in the chain behind the last one.
  pub Chain-snoc :
      {g : Ptr → Option Node} (fresh e n vl nl : Ptr) (p v : Ptr) (cs : Cells) (last : Ptr)
      → Chain h p v cs last
      → ((fresh == p) || has fresh cs) ≡ false
      → fresh ≢ null
      → g fresh ≡ some (node e n)
      → h last ≡ some (node vl nl)
      → g last ≡ some (node vl fresh)
      → ((a : Ptr) → a ≢ last → a ≢ fresh → g a ≡ h a)
      → Chain g p v (cs ++ (fresh, e) ∷ []) fresh
  Chain-snoc fresh e n vl nl p v [] last c new ne hf hl gl same =
      (ground arith, ground arith, ground arith, (n, hf, ne, refl))
  Chain-snoc fresh e n vl nl p v ((q, d) ∷ cs) last c new ne hf hl gl same =
      let l = Chain-last q d cs last c.3 in
      let apart : p ≢ last =
        λ x. false≢true (sym c.2 ∙ ap (λ a. has a ((q, d) ∷ cs)) x ∙ l.among) in
      (
        ground (arith, same p),
        c.1,
        ground (arith, has-append p cs ((fresh, e) ∷ [])),
        Chain-snoc fresh e n vl nl q d cs last c.3 (ground arith) ne hf hl gl same,
      )

pub not-mem_of_none :
    (h : Ptr → Option Node) (a p v : Ptr) (cs : Cells) (last : Ptr)
    → Chain h p v cs last
    → h a ≡ none
    → ((a == p) || has a cs) ≡ false
not-mem_of_none h a p v [] last c unused = ground arith
not-mem_of_none h a p v ((q, d) ∷ cs) last c unused =
    ground (arith, not-mem_of_none h a q d cs last c.3)

pub Chain-first :
    (h : Ptr → Option Node) (p v : Ptr) (cs : Cells) (last : Ptr)
    → Chain h p v cs last
    → (n : Ptr) × (h p ≡ some (node v n)) × (p ≢ null)
Chain-first h p v [] last c = (c.0, c.1, c.2)
Chain-first h p v ((q, d) ∷ cs) last c = (q, c.0, c.1)
