-- ===== src/Tests/Enrichment.antt =====
-- Two workers that read two games, the second of which is done first.
use ps2_driveforge.Base.{◌≡◌, ◌≤◌, refl, false, List, [], length, arith}
use ps2_driveforge.Apa.Header.{Partition}
use ps2_driveforge.Hdl.Catalog.{candidates, read_catalog}
use ps2_driveforge.Hdl.Enrichment.{
  unknown, solid_state, choose_hdl_enrichment_policy, Enrichment, remove_index, start_enrichment,
  store_game, take_index, finish_game, Work, taken, finished, Works, started, worked, add_result,
  collect, finish_catalog, gather,
}
use ps2_driveforge.Hdl.Workers.{gather-read_catalog}
use ps2_driveforge.Tests.Sort.{insertion_sort}
use ps2_driveforge.Tests.Hdl.{program, drive, two_games}

run_program : Unit {0}
unfolding program remove_index store_game take_index finish_game add_result collect finish_catalog
    gather choose_hdl_enrichment_policy
run_program = tt

abbrev games : List Partition
games = insertion_sort (candidates two_games.partitions)

abbrev both_taken : Enrichment
both_taken = take_index (take_index (start_enrichment games))

abbrev done : Enrichment
done = finish_game drive games 0 (finish_game drive games 1 both_taken)

first_taken : Work drive games 2 (start_enrichment games) (take_index (start_enrichment games))
unfolding run_program
first_taken = taken (omega arith) (omega arith)

second_taken : Work drive games 2 (take_index (start_enrichment games)) both_taken
unfolding run_program
second_taken = taken (omega arith) (omega arith)

second_done : Work drive games 2 both_taken (finish_game drive games 1 both_taken)
unfolding run_program
second_done = finished 1 refl

first_done : Work drive games 2 (finish_game drive games 1 both_taken) done
unfolding run_program
first_done = finished 0 refl

works : Works drive games 2 (start_enrichment games) done
works = worked (worked (worked (worked started first_taken) second_taken) second_done) first_done

idle : done.in_flight ≡ []
unfolding run_program
idle = refl

all_taken : length games ≤ done.next
unfolding run_program
all_taken = omega arith

one_readable : (gather games done).readable ≡ 1
unfolding run_program
one_readable = refl

two_workers : choose_hdl_enrichment_policy solid_state 2 0 ≡ 2
unfolding run_program
two_workers = refl

one_worker : choose_hdl_enrichment_policy unknown 2 0 ≡ 1
unfolding run_program
one_worker = refl

gather-read_catalog_example :
    gather games done ≡ (read_catalog insertion_sort drive two_games false (λ n. false)).catalog
gather-read_catalog_example =
    gather-read_catalog insertion_sort drive two_games 2 done works idle all_taken
