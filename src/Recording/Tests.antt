-- ===== src/Recording/Tests.antt =====
-- Runs of the recording writer on small inputs, crates/relayterm-terminal/src/recording.rs.
use relay_term.Prelude.{◌≡◌, refl, ◌⊎◌, inl, true, false, none, List, [], ◌∷◌, arith, length}
use relay_term.Recording.{
  RecordingWriterConfig, resized, detached, empty_object, Accepts, chunk, marker, Command, output,
  mark, shutdown, idle_task, flush_chunk, storable, fits_i64, append_chunk,
  would_overshoot_hard_cap, write_marker, attempt,
}
use relay_term.Recording.Task.{
  writer_task, on_shutdown, drain, on_output, on_marker, gap_first, take_frame, add_frame,
  flush_full, observe, put_marker, flush_open,
}
use relay_term.Recording.Covers.{Covered, InGap}
use relay_term.Recording.Producer.{
  Event, frame, note, turn, shut_down, drop_senders, record_output, enabled,
}
use relay_term.Recording.Shutdown.{recorded, shutdown_accounts, drop_accounts, dropped_tail_untold}
use relay_term.Recording.Stored.{task_stores_output}
use relay_term.Recording.Bytes.{stored_bytes}
use relay_term.Recording.Sizes.{AllSized, task_chunks_sized}

abbrev small_config : RecordingWriterConfig
small_config = record { chunk_target_bytes = 3; chunk_hard_cap_bytes = 4 }

-- A repository that refuses chunks and stores markers.
abbrev refuses_chunks : Accepts
refuses_chunks log (chunk r) = false
refuses_chunks log (marker m) = true

abbrev stores_all : Accepts
stores_all log row = true

abbrev some_events : List Event
some_events =
    turn
    ∷ frame (7 ∷ [])
    ∷ frame (8 ∷ 9 ∷ [])
    ∷ turn
    ∷ note resized 2 empty_object
    ∷ frame (1 ∷ 2 ∷ 3 ∷ 4 ∷ 5 ∷ [])
    ∷ frame (6 ∷ [])
    ∷ []

abbrev some_commands : List Command
some_commands =
    output 1 (7 ∷ []) none
    ∷ output 2 (8 ∷ 9 ∷ []) none
    ∷ mark detached 2 empty_object
    ∷ output 3 (5 ∷ []) none
    ∷ shutdown 3
    ∷ output 4 (6 ∷ []) none
    ∷ []

shutdown_accounts_example :
    Covered 3
      (shut_down small_config refuses_chunks 4
        (recorded small_config refuses_chunks some_events)).task.log
    ⊎ InGap 3 (recorded small_config refuses_chunks some_events).pending_gap
shutdown_accounts_example =
    shutdown_accounts small_config refuses_chunks some_events 4 3 (λ log m. refl) (omega arith)
      (tt, (omega arith, (omega arith, (tt, (tt, (omega arith, (omega arith, tt))))))) (omega arith)
      (omega arith) (omega arith)

drop_accounts_example :
    Covered 2
      (drop_senders small_config stores_all (recorded small_config stores_all some_events)).task.log
    ⊎ InGap 2 (recorded small_config stores_all some_events).pending_gap
drop_accounts_example =
    drop_accounts small_config stores_all some_events 2 (λ log m. refl) (omega arith)
      (tt, (omega arith, (omega arith, (tt, (tt, (omega arith, (omega arith, tt))))))) (omega arith)
      (omega arith) (omega arith)

dropped_tail_untold_example :
    (shut_down small_config stores_all 1
      (record_output small_config 1 (1 ∷ 2 ∷ 3 ∷ 4 ∷ 5 ∷ []) enabled)).task
    ≡ (shut_down small_config stores_all 1 enabled).task
dropped_tail_untold_example =
    dropped_tail_untold small_config stores_all 1 (1 ∷ 2 ∷ 3 ∷ 4 ∷ 5 ∷ []) 1 enabled
      (inl (omega arith))

task_stores_output_example :
    stored_bytes (writer_task small_config stores_all some_commands idle_task).log
    ≡ 7 ∷ 8 ∷ 9 ∷ 5 ∷ 6 ∷ []
task_stores_output_example =
    task_stores_output small_config stores_all 4 some_commands (λ log row. refl) (omega arith)
      (omega arith)
      (
        omega arith,
        omega arith,
        tt,
        (
          omega arith,
          omega arith,
          tt,
          (omega arith, omega arith, tt, (omega arith, omega arith, tt, omega arith)),
        ),
      )

task_chunks_sized_example :
    AllSized 4 (writer_task small_config stores_all some_commands idle_task).log
task_chunks_sized_example = task_chunks_sized small_config stores_all some_commands (omega arith)

-- Two chunks, the first of target size, the marker between them, and the closing marker.
writes_four_rows : length (writer_task small_config stores_all some_commands idle_task).log ≡ 4
unfolding writer_task on_shutdown drain on_output on_marker gap_first take_frame add_frame
    flush_full observe put_marker flush_open flush_chunk storable fits_i64 append_chunk
    would_overshoot_hard_cap write_marker attempt
writes_four_rows = refl
