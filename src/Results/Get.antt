-- ===== src/Results/Get.antt =====
-- iperfwrapperlib/iperf/src/iperf_api.c: `get_results` as a whole.
use mm_wave_tracker.Prelude.{ℕ, ◌&&◌, List, Option, none, some, ◌==◌, if◌then◌else◌}
use mm_wave_tracker.Prelude.Int.{ℤ, pos, negsuc, truthy}
use mm_wave_tracker.Prelude.Word.{to_u64, to_int}
use mm_wave_tracker.Prelude.Double.{Double}
use mm_wave_tracker.Config.Errno.{ierecvresults}
use mm_wave_tracker.Exchange.{and_then}
use mm_wave_tracker.Results.{Tally, Document, is_only_receiver, goes_both_ways, get_entries}

-- A copy of a text; `strdup` follows the NULL of an item that is none.
abbrev pub copy_text : Option (Option (List ℕ)) → Option (List ℕ) → Option (Option (List ℕ))
copy_text none old = some old
copy_text (some none) old = none
copy_text (some (some s)) old = some (some s)

module _ {D J : Type 0} where
  -- What the mode lets a side take over about retransmits.
  unfoldable pub take_retransmits : ℤ → Tally D J → Tally D J
  take_retransmits has t =
      if is_only_receiver t.mode
      then record t { sender_has_retransmits = has; other_side_has_retransmits = pos 0 }
      else if goes_both_ways t.mode
      then record t { other_side_has_retransmits = has }
      else t

  -- A client that asked for the output of the server keeps it, as JSON if there is some.
  unfoldable pub take_output : Document D J → Tally D J → Option (Tally D J)
  take_output d t =
      if (t.role == b'c') && truthy t.get_server_output
      then elim d.server_output_json [
        | some j ↦ some record t { json_server_output = some j }
        | none ↦
            and_then (copy_text d.server_output_text t.server_output_text)
              (λ s. some record t { server_output_text = s })
      ]
      else some t

  -- The streams and the output, if there is an array of streams.
  unfoldable pub take_streams : Double D → Document D J → Tally D J → Option (ℤ × Tally D J)
  take_streams fp d t = elim d.streams [
    | none ↦ some (negsuc 0, record t { i_errno = ierecvresults })
    | some es ↦
        let (r, e, l) = get_entries fp es (pos 0, t.i_errno, t.streams) in
        and_then (take_output d (record t { i_errno = e; streams = l })) (λ t'. some (r, t'))
  ]

  -- What follows if the numbers of the processor and of retransmits are all there.
  unfoldable pub take_document : Double D → Document D J → Tally D J → Option (ℤ × Tally D J)
  take_document fp d t =
      let missing = some (negsuc 0, record t { i_errno = ierecvresults }) in
      elim d.cpu_util_total [
        | none ↦ missing
        | some total ↦ elim d.cpu_util_user [
          | none ↦ missing
          | some user ↦ elim d.cpu_util_system [
            | none ↦ missing
            | some system ↦ elim d.sender_has_retransmits [
              | none ↦ missing
              | some has ↦ take_streams fp d (
                  take_retransmits (to_int (to_u64 has))
                    (record t { remote_cpu_util = (total, user, system) }))
            ]
          ]
        ]
      ]

  -- `get_results`, of what `JSON_read` gives: what is returned, and the test; `none` is a crash.
  unfoldable pub get_results : Double D → Option (Document D J) → Tally D J → Option (ℤ × Tally D J)
  get_results fp none t = some (negsuc 0, record t { i_errno = ierecvresults })
  get_results fp (some d) t = and_then (take_document fp d t) (λ x.
      and_then (copy_text d.congestion_used x.1.remote_congestion_used)
        (λ c. some (x.0, record (x.1) { remote_congestion_used = c })))
