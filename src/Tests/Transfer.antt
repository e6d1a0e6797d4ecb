-- ===== src/Tests/Transfer.antt =====
-- One transfer of two files by one goroutine.
use ocis_cli.Base.{
  ℕ, ◌+◌, ◌*◌, ◌≤◌, Option, none, some, String, true, false, [], ◌∷◌, ◌≡◌, refl, arith, map,
}
use ocis_cli.Base.{length, All, if◌then◌else◌, ◌==◌}
use ocis_cli.Base.Int.{pos, ◌≤ℤ◌}
use ocis_cli.Base.Result.{ok}
use ocis_cli.Base.Seq.{get_elem?, set, replicate}
use ocis_cli.Transfer.Pool.{
  Transfer, Task, Pool, waiting, running, returned, worker_count, total_bytes, start, report,
  becomes, send, close, complete, leave, advance, progress, Reach, begin, later, Advances, done,
  next_advance, IsOver, over, outcome,
}
use ocis_cli.Transfer.Pool.Bytes.{size_of}
use ocis_cli.Transfer.Pool.Ends.{Reach-ends}
use ocis_cli.Transfer.Pool.Sums.{Reach-IsSummed}
use ocis_cli.Transfer.Pool.Settled.{IsSummed}
use ocis_cli.Transfer.Pool.Results.{outcome_complete}

abbrev task_a : Task
task_a = record { source = "/home/a"; destination = "/notes/a"; size = pos 3 }

abbrev task_b : Task
task_b = record { source = "/home/b"; destination = "/notes/b"; size = pos 5 }

abbrev two_files : Transfer
two_files = record {
  operation = "upload";
  tasks = task_a ∷ task_b ∷ [];
  concurrency = pos 1;
  has_progress = true;
  started_at = 0;
}

abbrev at_start : Pool String
at_start = start two_files

abbrev a_sent : Pool String
a_sent = becomes two_files 0 (running 0) (record at_start { next = 1 })

abbrev a_halfway : Pool String
a_halfway = report two_files 0 task_a (pos 1) false a_sent

abbrev a_done : Pool String
a_done = becomes two_files 0 waiting (report two_files 0 task_a (pos 3) true a_halfway)

abbrev b_sent : Pool String
b_sent = becomes two_files 0 (running 1) (record a_done { next = 2 })

abbrev b_done : Pool String
b_done = becomes two_files 0 waiting (report two_files 1 task_b (pos 5) true b_sent)

abbrev at_end : Pool String
at_end = becomes two_files 0 returned (record b_done { is_open = false })

half_reached : Reach two_files a_halfway
unfolding start report worker_count get_elem? set replicate
half_reached =
    later (later (begin (omega arith)) (advance (send 0 task_a refl refl refl)))
      (progress 0 0 task_a (pos 1) refl refl)

end_reached : Reach two_files at_end
unfolding start report worker_count get_elem? set replicate
end_reached =
    later
      (later
        (later
          (later (later half_reached (advance (complete 0 0 task_a refl refl)))
            (advance (send 0 task_b refl refl refl)))
          (advance (complete 0 1 task_b refl refl)))
        (advance (close refl refl)))
      (advance (leave 0 refl refl))

end-IsOver : IsOver two_files at_end
unfolding start report worker_count get_elem? set replicate
end-IsOver = over refl (refl, tt)

no_error : outcome two_files at_end ≡ ok tt
unfolding outcome report start
no_error = refl

sizes_known : All (λ t. pos 0 ≤ℤ t.size) two_files.tasks
sizes_known = (omega arith, (omega arith, tt))

outcome_complete_example :
    (at_end.completed_files ≡ 2)
    × (at_end.reported ≡ map size_of two_files.tasks)
    × (at_end.completed_bytes ≡ total_bytes two_files.tasks (pos 0))
outcome_complete_example = outcome_complete two_files end_reached end-IsOver sizes_known no_error

-- The second file fails.
abbrev b_fails : ℕ → Option String
b_fails i = if i == 1 then some "gone" else none

halfway_done : Advances two_files b_fails 1 a_halfway a_done
unfolding start report worker_count get_elem? set replicate
halfway_done = next_advance (complete 0 0 task_a refl refl) refl done

Reach-ends_example :
    (1 ≤ 4 * 2 + 4 * length a_halfway.workers + 1)
    × ((n : ℕ) × ((o : Pool String) × Advances two_files b_fails n a_done o × IsOver two_files o))
Reach-ends_example = Reach-ends two_files b_fails half_reached halfway_done

Reach-IsSummed_example : IsSummed two_files a_halfway
Reach-IsSummed_example = Reach-IsSummed two_files half_reached
