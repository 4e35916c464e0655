-- ===== src/Tests/Mount.antt =====
-- The mounted drive over the test disk.
use ps2_driveforge.Base.{ℕ, ◌≡◌, refl, List}
use ps2_driveforge.Base.Bytes.{codes, bytes_eq}
use ps2_driveforge.Names.{
  upper_byte, uppercase_ascii, stem_of, reserved_stem, reserved_windows_name, is_forbidden,
  replace_forbidden, replace_last, replace_dots, sanitize_host_filename, decimal, mem_name,
  unique_loop, unique_name,
}
use ps2_driveforge.Pfs.Directory.{
  split_component, skip_separators, resolve_loop, resolve, find_entry, enter,
}
use ps2_driveforge.Session.Paths.{
  collapse, trim_slashes, normalize_cache_path, make_cache_key, child_path,
}
use ps2_driveforge.Session.Store.{find, insert_or_assign, erase_at, bounded_store, store_all}
use ps2_driveforge.Session.State.{probe_for, open_selected, open_reader, stat_from_node}
use ps2_driveforge.Session.Browse.{
  failed_browse, make_child, list_path, child_nodes, keep_listing, browse_reader,
  browse_opened_with, browse_miss, browse,
}
use ps2_driveforge.Mount.Aliases.{
  equal_windows_name, name_aliases, shown_entries, make_entry_aliases, shown_partitions,
  make_partition_aliases, find_alias,
}
use ps2_driveforge.Mount.View.{
  split_loop, split_path, join_pfs_path, any_forbidden, choose_entry, walk_names, lookup_partition,
  lookup_namespace, lookup_parts, list_browsed, list_pfs, list_node,
}
use ps2_driveforge.Mount.View.{lookup, list_directory}
use ps2_driveforge.Tests.Drive.{program}
use ps2_driveforge.Tests.Session.{first_key, session}

run_program : Unit {0}
unfolding program split_component skip_separators resolve_loop resolve find_entry enter find
    insert_or_assign erase_at bounded_store store_all collapse trim_slashes normalize_cache_path
    make_cache_key child_path probe_for open_selected open_reader stat_from_node failed_browse
    make_child list_path child_nodes keep_listing browse_reader browse_opened_with browse_miss
    browse split_loop split_path join_pfs_path any_forbidden choose_entry walk_names
    lookup_partition lookup_namespace lookup_parts lookup list_browsed list_pfs list_node
    list_directory equal_windows_name name_aliases shown_entries make_entry_aliases shown_partitions
    make_partition_aliases find_alias upper_byte uppercase_ascii stem_of reserved_stem
    reserved_windows_name is_forbidden replace_forbidden replace_last replace_dots
    sanitize_host_filename decimal mem_name unique_loop unique_name bytes_eq
run_program = tt

abbrev directory_path : List ℕ
directory_path = codes "\\partitions/saves"

save_size : (lookup first_key session (codes "\\Partitions\\saves\\SAVE")).0.size ≡ 5
unfolding run_program
save_size = refl
