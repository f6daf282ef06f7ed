-- ===== src/Routing/Table/Tests.antt =====
-- Runs of the sort and of the lookup on a table of four routes.
use communication_protocols.Base.{ℕ, zero, suc, ◌<◌, ◌≡◌, ◌≢◌, refl, none, some, arith}
use communication_protocols.Routing.Table.{
  Entry, Table, ok, fault, before, swap, partition_loop, partition, sort_loop, quicksort,
  search_loop, binary_search, better, best_loop, get_best_route,
}
use communication_protocols.Routing.Table.Swaps.{count}
use communication_protocols.Routing.Table.Sort.{Sorted, quicksort-Sorted, quicksort-count}
use communication_protocols.Routing.Table.Search.{matches, binary_search-quicksort}
use communication_protocols.Routing.Table.Best.{Outcome, get_best_route-Outcome}

abbrev route : ℕ → ℕ → ℕ → Entry
route net hop mask = record { prefix = net; next_hop = hop; mask = mask; interface = 1 }

-- The networks 2 and 1 with the mask 255, and 1 with the mask 65535.
abbrev four : Table
four zero = route 2 7 255
four (suc zero) = route 1 8 255
four (suc (suc zero)) = route 1 9 65535
four (suc (suc (suc j))) = route 0 0 0

four_sorted : (quicksort 0 3 four 0).mask ≡ 65535
unfolding quicksort sort_loop partition partition_loop swap before
four_sorted = refl

four_last : (quicksort 0 3 four 2).next_hop ≡ 7
unfolding quicksort sort_loop partition partition_loop swap before
four_last = refl

-- The walk from the second entry meets the entry with the larger mask at the front, and leaves.
four_fault : get_best_route 3 1 (quicksort 0 3 four) ≡ fault
unfolding quicksort sort_loop partition partition_loop swap before get_best_route binary_search
    search_loop best_loop better
four_fault = refl

four_found : get_best_route 3 258 (quicksort 0 3 four) ≡ ok (some 2)
unfolding quicksort sort_loop partition partition_loop swap before get_best_route binary_search
    search_loop best_loop better
four_found = refl

quicksort-Sorted_example : Sorted 0 3 (quicksort 0 3 four)
quicksort-Sorted_example = quicksort-Sorted 0 3 four

quicksort-count_example : (count (matches 1) 3 (quicksort 0 3 four) ≡ count (matches 1) 3 four)
quicksort-count_example = (quicksort-count (matches 1) 3 0 3 four (omega arith)).0

-- One mask: the networks 30, 20 and 10.
abbrev falling : Table
falling zero = route 30 7 255
falling (suc zero) = route 20 8 255
falling (suc (suc zero)) = route 10 9 255
falling (suc (suc (suc j))) = route 0 0 255

falling_masks : (j : ℕ) → (falling j).mask ≡ 255
falling_masks zero = refl
falling_masks (suc zero) = refl
falling_masks (suc (suc zero)) = refl
falling_masks (suc (suc (suc j))) = refl

falling_counted : 0 < count (matches 286) 3 falling
unfolding matches count
falling_counted = omega arith

binary_search-quicksort_example : binary_search 0 3 286 (quicksort 0 3 falling) ≢ none
binary_search-quicksort_example =
    binary_search-quicksort 3 286 255 falling (λ j h1 h2. falling_masks j) falling_counted

falling_found : binary_search 0 3 286 (quicksort 0 3 falling) ≡ some 2
unfolding quicksort sort_loop partition partition_loop swap before binary_search search_loop
falling_found = refl

get_best_route-Outcome_example : Outcome 3 1 four (get_best_route 3 1 four)
get_best_route-Outcome_example = get_best_route-Outcome 3 1 four
