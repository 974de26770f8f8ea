-- ===== src/Main/Examples.antt =====
-- Runs of the program, and its theorems at concrete inputs.
use kvadra_top.Base.{
  runtime_error, system_error, ℕ, ◌≡◌, refl, none, some, [], ◌∷◌, ◌++◌, ok, throw, invalid_argument,
  arith,
}
use kvadra_top.Text.{pos, codes, to_string}
use kvadra_top.Real.Fixed.{fixed}
use kvadra_top.Process.Insertion.{insertion_sort}
use kvadra_top.Collector
use kvadra_top.Collector.{Collector, Inputs}
use kvadra_top.Cpu.{read_proc_stat}
use kvadra_top.Network.{read_proc_net_dev}
use kvadra_top.Disk.{read_proc_diskstats}
use kvadra_top.Main.Args.{port_of, frontend_dir}
use kvadra_top.Main.Loop.{Program, nap, main_loop, report}
use kvadra_top.Main.Command.{Start, terminated, exited, program_of, main}
use kvadra_top.Main.Startup.{first_problem, main_terminates, main_exits}
use kvadra_top.Main.Service.{main_serves}
use kvadra_top.Main.Ports.{port_of-to_string}
use kvadra_top.Main.Stops.{Ended, main_loop_ends}
use kvadra_top.Main.Reports.{reports}
use kvadra_top.Main.Scene.{
  brings-Keeps, served, bare, started, started_run, collector, quiet, world, dump, start, finish,
  site, client,
}

port_of-to_string_example : port_of (some (to_string 8081)) ≡ ok 8081
port_of-to_string_example = port_of-to_string 8081 (omega arith)

default_port : port_of none ≡ ok 8080
unfolding port_of
default_port = refl

port_cut : port_of (some (codes "65616")) ≡ ok 80
unfolding port_of
port_cut = refl

port_negative : port_of (some (codes "-1")) ≡ ok 65535
unfolding port_of
port_negative = refl

port_word : port_of (some (codes "http")) ≡ throw invalid_argument
unfolding port_of
port_word = refl

main_loop_ends_example :
    (q : Program) × (main_loop fixed insertion_sort dump world 27 start ≡ some q)
    × Ended fixed insertion_sort dump world start q
main_loop_ends_example =
    main_loop_ends fixed insertion_sort dump world start 27 (omega arith) (omega arith)

-- Three rounds, and two messages.
two_messages : reports fixed insertion_sort dump world 3 0 collector ≡ (1 ∷ []) ∷ (3 ∷ []) ∷ []
unfolding reports report read_proc_stat read_proc_net_dev read_proc_diskstats
two_messages = refl

finished : main_loop fixed insertion_sort dump world 27 start ≡ some finish
unfolding main_loop report read_proc_stat read_proc_net_dev read_proc_diskstats
finished = refl

no_problem : first_problem bare ≡ none
unfolding port_of
no_problem = refl

main_exits_example :
    (port : ℕ) × (c : Collector) × (q : Program) × (port_of none ≡ ok port)
    × (Collector.init (pos 100) quiet ≡ ok c)
    × (main_loop fixed insertion_sort dump world 27 (program_of bare c) ≡ some q)
    × (main fixed insertion_sort dump world 27 bare ≡ exited port (frontend_dir none) q)
    × Ended fixed insertion_sort dump world (program_of bare c) q
main_exits_example = main_exits fixed insertion_sort dump world 27 bare no_problem (omega arith)

-- Started where there is no /proc/diskstats.
abbrev diskless : Start
diskless = record bare { inputs = record quiet { diskstats = none } }

no_disks : first_problem diskless ≡ some (runtime_error (codes "cannot open /proc/diskstats"))
unfolding port_of
no_disks = refl

main_terminates_example :
    main fixed insertion_sort dump world 27 diskless
    ≡ terminated (runtime_error (codes "cannot open /proc/diskstats"))
main_terminates_example = main_terminates fixed insertion_sort dump world 27 diskless _ no_disks

-- The port is taken, so it does not matter that a file is missing.
taken_port : first_problem (record diskless { bind = some system_error }) ≡ some system_error
unfolding port_of
taken_port = refl

main_serves_example :
    (c : Collector) × (Collector.init (pos 100) quiet ≡ ok c)
    × (client.sent ++ (client.queue ++ client.posted)
        ≡ reports fixed insertion_sort dump world 3 0 c)
main_serves_example =
    main_serves fixed insertion_sort dump world 27 0 8080 started site finish _ client (omega arith)
      started_run refl brings-Keeps served refl

-- Eleven reads of the flag make one round; a signal during the naps ends them.
full_naps : nap world 10 1 ≡ 11
unfolding nap
full_naps = refl

cut_naps : nap world 10 23 ≡ 26
unfolding nap
cut_naps = refl
