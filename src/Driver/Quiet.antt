-- ===== src/Driver/Quiet.antt =====
-- A driver whose calls all succeed and change nothing, for tests.
use vugva.Common.{false, none, some}
use vugva.Driver.{Driver}

abbrev pub Nothing : Type 0
Nothing = Unit {0}

abbrev pub quiet_on : {W : Type 0} → Driver W
quiet_on = record {
  now_ns = λ w. (0, w);
  init = λ w. (0, w);
  retain_context = λ _ w. ((0, 4096), w);
  release_context = λ _ w. (0, w);
  set_current = λ _ w. (0, w);
  push_current = λ _ w. (0, w);
  pop_current = λ w. (0, w);
  mem_alloc = λ _ w. ((0, 4096), w);
  mem_free = λ _ w. (0, w);
  mem_info = λ w. ((0, 4096), w);
  copy_peer = λ _ _ _ _ _ _ w. (0, w);
  copy_to_device_async = λ _ _ _ _ w. (0, w);
  copy_to_device = λ _ _ _ w. (0, w);
  copy_to_host_async = λ _ _ _ _ w. (0, w);
  create_stream = λ w. ((0, 4096), w);
  create_stream_with_priority = λ _ w. ((0, 4096), w);
  destroy_stream = λ _ w. w;
  synchronize_stream = λ _ w. (0, w);
  query_stream = λ _ w. (0, w);
  greatest_priority = λ w. ((0, 4096), w);
  create_event = λ _ w. ((0, 4096), w);
  destroy_event = λ _ w. w;
  record_event = λ _ _ w. (0, w);
  synchronize_event = λ _ w. (0, w);
  query_event = λ _ w. (0, w);
  elapsed_time = λ _ _ w. ((0, 0), w);
  register_host = λ _ _ w. (0, w);
  unregister_host = λ _ w. (0, w);
  can_access_peer = λ _ _ w. ((0, 4096), w);
  enable_peer = λ _ w. (0, w);
  device_name = λ _ w. ("", w);
  total_memory = λ _ w. (0, w);
  compute_capability = λ _ w. ((8, 9), w);
  attribute = λ _ _ w. (0, w);
  skips_pinning = λ w. (false, w);
  map_memory = λ _ w. (some 65536, w);
  bind_memory = λ _ _ _ _ w. (0, w);
  unmap_memory = λ _ _ w. w;
  numactl_hardware = λ w. (none, w);
  read_text = λ _ w. (none, w);
  write_host = λ _ _ w. w;
  read_file = λ _ _ _ w. (none, w);
  write_file = λ _ _ w. (none, w);
  open_spill = λ _ _ w. (none, w);
}

abbrev pub quiet : Driver Nothing
quiet = quiet_on
