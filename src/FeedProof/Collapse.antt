-- ===== src/FeedProof/Collapse.antt =====
-- `ipaddress.collapse_addresses`: the fewest networks with the same addresses.
pub mod Laws
pub mod Order
use homecluster_infra.Base.{
  ℕ, zero, suc, ◌+◌, ◌*◌, ◌^◌, Bool, true, false, ◌&&◌, ◌||◌, Option, none, some, List, [], ◌∷◌,
  ◌==◌, nat_eq, ltb, leb, length, if◌then◌else◌,
}
use homecluster_infra.FeedProof.Net.{
  Network, network_address, broadcast_address, same_network, supernet,
}

-- `subnets`, a dict from a network to one of its halves.
abbrev pub Subnets : Type 0
Subnets = List (Network × Network)

unfoldable pub find_half : Network → Subnets → Option Network
find_half key [] = none
find_half key ((k, v) ∷ rest) = if same_network k key then some v else find_half key rest

unfoldable pub remove_half : Network → Subnets → Subnets
remove_half key [] = []
remove_half key ((k, v) ∷ rest) =
    let more = remove_half key rest in if same_network k key then rest else (k, v) ∷ more

-- `while to_merge:`; the list is `to_merge` with its end first.
unfoldable pub merge_loop : ℕ → List Network → Subnets → Option Subnets
merge_loop zero to_merge subnets = none
merge_loop (suc fuel) [] subnets = some subnets
merge_loop (suc fuel) (net ∷ to_merge) subnets =
    let parent = supernet net in
    elim (find_half parent subnets) [
      | none ↦ merge_loop fuel to_merge ((parent, net) ∷ subnets)
      | some existing ↦ elim (same_network existing net) [
        | true ↦ merge_loop fuel to_merge subnets
        | false ↦ merge_loop fuel (parent ∷ to_merge) (remove_half parent subnets)
      ]
    ]

unfoldable pub halves : Subnets → List Network
halves [] = []
halves ((k, v) ∷ rest) = v ∷ halves rest

-- The order of networks: by address, then by netmask, the shorter prefix first.
abbrev pub network_le : Network → Network → Bool
network_le m n =
    ltb (network_address m) (network_address n)
    || (network_address m == network_address n && leb n.bits m.bits)

insert_network : Network → List Network → List Network
insert_network m [] = m ∷ []
insert_network m (n ∷ rest) = if network_le m n then m ∷ n ∷ rest else n ∷ insert_network m rest

unfoldable pub sort_networks : List Network → List Network
unfolding insert_network
sort_networks [] = []
sort_networks (n ∷ rest) = insert_network n (sort_networks rest)

-- What lies inside the network that was yielded last is passed over.
unfoldable pub drop_covered : Network → List Network → List Network
drop_covered last [] = []
drop_covered last (n ∷ rest) =
    let skip = drop_covered last rest in
    let yielded = n ∷ drop_covered n rest in
    if leb (broadcast_address n) (broadcast_address last) then skip else yielded

unfoldable pub without_covered : List Network → List Network
unfolding drop_covered
without_covered [] = []
without_covered (n ∷ rest) = n ∷ drop_covered n rest

-- Each round takes one network, and adds one only where it removes a half.
abbrev pub enough_fuel : List Network → ℕ
enough_fuel networks = suc (2 * length networks)

unfoldable pub collapse_addresses : List Network → Option (List Network)
unfolding merge_loop find_half remove_half halves sort_networks without_covered
collapse_addresses networks = elim (merge_loop (enough_fuel networks) networks []) [
  | none ↦ none
  | some subnets ↦ some (without_covered (sort_networks (halves subnets)))
]
