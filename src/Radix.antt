-- ===== src/Radix.antt =====
-- gateway/radix_tree.py: the path-compressed prefix tree. A `_Node` is an object on a heap, named by
-- a number that stands for its identity: the tree and the per-backend LRU tables share nodes. The
-- root is node 0. A loop over `hashes` from index `i` is a recursion on the hashes that are left.
pub mod Walk
mod Shape
pub mod Ownership
mod Eviction
mod Bound
pub mod Removal
pub mod Runs
mod Tests
use llm_inference.Base.{
  ℕ, zero, suc, ◌+◌, ◌-◌, Bool, true, false, Option, none, some, List, [], ◌∷◌, ltb, ◌==◌,
  if◌then◌else◌, nat_eq, contains, length, take, drop, filter, get_or,
}
use llm_inference.Base.Text.{Text, text_eq}
use llm_inference.Base.Dict
use llm_inference.Base.Dict.{Dict}

pub record Node : Type 0 where
  pub edge : List ℕ
  pub children : Dict ℕ ℕ
  pub holders : Dict Text ℕ

pub record RadixTree : Type 0 where
  pub heap : ℕ → Node
  pub next : ℕ
  pub cap : ℕ
  pub clock : ℕ
  pub lru : Dict Text (Dict ℕ (Unit {0}))

abbrev pub new_node : List ℕ → Node
new_node edge = record { edge = edge; children = []; holders = [] }

abbrev pub root : ℕ
root = 0

unfoldable pub init : ℕ → RadixTree
init cap = record { heap = λ n. new_node []; next = 1; cap = cap; clock = 0; lru = [] }

-- A write to one object of the heap.
abbrev pub update : (ℕ → Node) → ℕ → Node → ℕ → Node
update heap n node m = if n == m then node else heap m

-- `while j < le and i + j < n and e[j] == hashes[i + j]: j += 1`
unfoldable pub common : List ℕ → List ℕ → ℕ
common [] hashes = 0
common (x ∷ e) [] = 0
common (x ∷ e) (h ∷ hashes) = let rest = common e hashes in if x == h then suc rest else 0

-- `set(hk) if alive is None else (alive & hk)`
unfoldable pub survivors : Option (List Text) → List Text → List Text
survivors none held = held
survivors (some alive) held = filter (λ b. contains b held) alive

-- `for b in alive: best[b] = depth`
unfoldable pub set_all : List Text → ℕ → Dict Text ℕ → Dict Text ℕ
set_all [] depth best = best
set_all (b ∷ alive) depth best = set_all alive depth (Dict.set b depth best)

abbrev pub is_empty : List Text → Bool
is_empty [] = true
is_empty (b ∷ bs) = false

unfoldable pub match_from :
    ℕ → (ℕ → Node) → ℕ → Dict Text ℕ → Option (List Text) → ℕ → List ℕ → Dict Text ℕ
unfolding common survivors set_all
match_from zero heap node best alive depth hashes = best
match_from (suc fuel) heap node best alive depth [] = best
match_from (suc fuel) heap node best alive depth (h ∷ hashes) =
    elim (Dict.get h (heap node).children) [
      | none ↦ best
      | some child ↦
          let j = common (heap child).edge (h ∷ hashes) in
          let left = survivors alive (Dict.keys (heap child).holders) in
          let best' = set_all left (depth + j) best in
          let deeper =
            match_from fuel heap child best' (some left) (depth + j) (drop j (h ∷ hashes)) in
          if is_empty left then best else if ltb j (length (heap child).edge) then best' else deeper
    ]

-- Each round consumes a block, so as much fuel as there are blocks is enough (Radix/Shape).
unfoldable pub match : RadixTree → List ℕ → Dict Text ℕ
match t hashes = match_from (length hashes) t.heap root [] none 0 hashes

unfoldable pub track : Text → ℕ → RadixTree → RadixTree
track b n t =
    let lru = Dict.get_or b [] t.lru in
    record t {
      lru = Dict.set b (if Dict.has n lru then Dict.move_to_end n lru else Dict.set n tt lru) t.lru;
    }

unfoldable pub hold : Text → ℕ → RadixTree → RadixTree
hold b n t = track b n (record t {
  heap = update t.heap n (record (t.heap n) { holders = Dict.set b t.clock (t.heap n).holders });
})

-- `for b in split.holders: self._track(b, split)`
unfoldable pub track_all : List Text → ℕ → RadixTree → RadixTree
track_all [] n t = t
track_all (b ∷ bs) n t = track_all bs n (track b n t)

-- `leaf = _Node(hashes[i:])` below `node`; the first of the hashes is its key.
unfoldable pub link : ℕ → List ℕ → RadixTree → RadixTree
link node [] t = t
link node (h ∷ hashes) t =
    let heap = update t.heap t.next (new_node (h ∷ hashes)) in
    record t {
      heap =
          update heap node
            (record (heap node) { children = Dict.set h t.next (heap node).children });
      next = t.next + 1;
    }

-- A new leaf for the hashes that are left, if there are any, held by the backend.
unfoldable pub add_leaf : Text → ℕ → List ℕ → RadixTree → RadixTree
add_leaf b node [] t = t
add_leaf b node (h ∷ hashes) t = hold b t.next (link node (h ∷ hashes) t)

-- The objects after `child`, reached from `node` by the key `h`, is split at offset `j`: the new node
-- has the front of the edge and the holders of `child`, which keeps the rest.
unfoldable pub split_node : ℕ → ℕ → ℕ → ℕ → RadixTree → RadixTree
split_node node child h j t =
    let split = t.next in
    let e = (t.heap child).edge in
    let back = drop j e in
    let front : Node = record {
      edge = take j e;
      children = (get_or back 0 0, child) ∷ [];
      holders = (t.heap child).holders;
    } in
    let heap = update t.heap child (record (t.heap child) { edge = back }) in
    let heap' = update heap split front in
    record t {
      heap =
          update heap' node
            (record (heap' node) { children = Dict.set h split (heap' node).children });
      next = split + 1;
    }

unfoldable pub split_child : Text → ℕ → ℕ → ℕ → List ℕ → RadixTree → RadixTree
split_child b node child h hashes t =
    let j = common (t.heap child).edge (h ∷ hashes) in
    let split = t.next in
    let t' = split_node node child h j t in
    let held = hold b split (track_all (Dict.keys (t.heap child).holders) split t') in
    add_leaf b split (drop j (h ∷ hashes)) held

unfoldable pub insert_from : ℕ → Text → ℕ → List ℕ → RadixTree → RadixTree
insert_from zero b node hashes t = t
insert_from (suc fuel) b node [] t = t
insert_from (suc fuel) b node (h ∷ hashes) t = elim (Dict.get h (t.heap node).children) [
  | none ↦ add_leaf b node (h ∷ hashes) t
  | some child ↦
      let j = common (t.heap child).edge (h ∷ hashes) in
      let deeper = insert_from fuel b child (drop j (h ∷ hashes)) (hold b child t) in
      let cut = split_child b node child h hashes t in
      if j == length (t.heap child).edge then deeper else cut
]

-- `sum(len(n.edge) for n in lru.values())`
unfoldable pub blocks : (ℕ → Node) → Dict ℕ (Unit {0}) → ℕ
blocks heap [] = 0
blocks heap ((n, u) ∷ lru) = length (heap n).edge + blocks heap lru

abbrev pub drop_holder : Text → ℕ → (ℕ → Node) → ℕ → Node
drop_holder b n heap = update heap n (record (heap n) { holders = Dict.remove b (heap n).holders })

-- The loop of `_evict`: the heap and the LRU table that are left.
unfoldable pub evict_from :
    Text → ℕ → ℕ → Dict ℕ (Unit {0}) → (ℕ → Node) → (ℕ → Node) × Dict ℕ (Unit {0})
evict_from b cap total [] heap = (heap, [])
evict_from b cap total ((n, u) ∷ lru) heap =
    let rest = evict_from b cap (total - length (heap n).edge) lru (drop_holder b n heap) in
    if ltb cap total then rest else (heap, (n, u) ∷ lru)

unfoldable pub evict : Text → RadixTree → RadixTree
evict b t =
    let lru = Dict.get_or b [] t.lru in
    let done = evict_from b t.cap (blocks t.heap lru) lru t.heap in
    record t { heap = done.0; lru = Dict.set b done.1 t.lru }

unfoldable pub insert : List ℕ → Text → RadixTree → RadixTree
insert [] b t = t
insert (h ∷ hashes) b t =
    evict b
      (insert_from (length (h ∷ hashes)) b root (h ∷ hashes) (record t { clock = t.clock + 1 }))

-- `for node in lru.values(): node.holders.pop(backend_id, None)`
unfoldable pub drop_holders : Text → Dict ℕ (Unit {0}) → (ℕ → Node) → ℕ → Node
drop_holders b [] heap = heap
drop_holders b ((n, u) ∷ lru) heap = drop_holders b lru (drop_holder b n heap)

unfoldable pub remove_backend : Text → RadixTree → RadixTree
remove_backend b t = record t {
  heap = drop_holders b (Dict.get_or b [] t.lru) t.heap;
  lru = Dict.remove b t.lru;
}

unfoldable pub held_blocks : Text → RadixTree → ℕ
unfolding blocks
held_blocks b t = blocks t.heap (Dict.get_or b [] t.lru)
