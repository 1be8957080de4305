-- ===== src/AddressBook/Chain.antt =====
-- exercise01/task1/addressbook.c: the nodes of a book in order, and what a write to one changes.
use ps_os.Base.{
  ℕ, zero, suc, ◌≤◌, ◌<◌, ◌≡◌, ◌≢◌, refl, arith, true, false, some, List, [], ◌∷◌, ◌++◌, map,
  length, elem,
}
use ps_os.AddressBook.{Store, set_next, last_node}

-- From pointer `p` the nodes are these, each live and at an address that has been given.
abbrev pub Chain : Store → ℕ → List ℕ → Type 0
Chain m p [] = p ≡ 0
Chain m p (a ∷ ns) =
    (p ≡ a) × (0 < a) × (a < m.fresh_node) × (m.node_live a ≡ true) × Chain m (m.nodes a).next ns

abbrev pub Distinct : List ℕ → Type 0
Distinct [] = Unit
Distinct (a ∷ ns) = (elem a ns ≡ false) × Distinct ns

abbrev pub contents : Store → List ℕ → List ℕ
contents m ns = map (λ a. (m.nodes a).data_of) ns

-- A write to a node that is not in the chain leaves the chain.
pub Chain-frame :
    (m m' : Store) (p : ℕ) (ns : List ℕ) (x : ℕ)
    → Chain m p ns
    → elem x ns ≡ false
    → m.fresh_node ≤ m'.fresh_node
    → ((a : ℕ) → a ≢ x → (m'.nodes a ≡ m.nodes a) × (m'.node_live a ≡ m.node_live a))
    → Chain m' p ns × (contents m' ns ≡ contents m ns)
Chain-frame m m' p [] x chain apart more same = (chain, refl)
Chain-frame m m' p (a ∷ ns) x chain apart more same =
    ground (arith, same a, Chain-frame m m' (m.nodes a).next ns x)

pub Chain-fresh :
    (m : Store) (p : ℕ) (ns : List ℕ) (x : ℕ) → Chain m p ns → m.fresh_node ≤ x → elem x ns ≡ false
Chain-fresh m p [] x chain more = refl
Chain-fresh m p (a ∷ ns) x chain more = ground (arith, Chain-fresh m (m.nodes a).next ns x)

abbrev pub last_of : ℕ → List ℕ → ℕ
last_of a [] = a
last_of a (b ∷ ns) = last_of b ns

elem-last_of : (a : ℕ) (ns : List ℕ) → elem (last_of a ns) (a ∷ ns) ≡ true
elem-last_of a [] = ground arith
elem-last_of a (b ∷ ns) = ground (arith, elem-last_of b ns)

pub last_node-last_of :
    (fuel : ℕ) (m : Store) (p a : ℕ) (ns : List ℕ)
    → Chain m p (a ∷ ns)
    → length (a ∷ ns) ≤ fuel
    → last_node fuel m p ≡ some (last_of a ns)
unfolding last_node
last_node-last_of zero m p a ns chain enough = absurd (omega arith)
last_node-last_of (suc fuel) m p a [] chain enough = ground arith
last_node-last_of (suc fuel) m p a (b ∷ ns) chain enough =
    ground (arith, last_node-last_of fuel m (m.nodes a).next b ns)

abbrev pub Extended : Store → ℕ → List ℕ → ℕ → Store → Type 0
Extended m p ns x m' =
    Chain m' p (ns ++ x ∷ [])
    × (contents m' (ns ++ x ∷ []) ≡ contents m ns ++ (m.nodes x).data_of ∷ [])

pub set_next-Extended :
    (m : Store) (p a : ℕ) (ns : List ℕ) (x : ℕ)
    → Chain m p (a ∷ ns)
    → Distinct (a ∷ ns)
    → elem x (a ∷ ns) ≡ false
    → (0 < x) × (x < m.fresh_node) × (m.node_live x ≡ true) × ((m.nodes x).next ≡ 0)
    → Extended m p (a ∷ ns) x (set_next m (last_of a ns) x)
set_next-Extended m p a [] x chain distinct apart new = ground arith
set_next-Extended m p a (b ∷ ns) x chain distinct apart new =
    ground (arith, elem-last_of b ns, set_next-Extended m (m.nodes a).next b ns x)
