-- ===== src/Run/Session.antt =====
-- internal/app/sync/service.go and bidirectional.go: a whole run, `runPreparedSync` and
-- `runPreparedBidirectionalSync`.
pub mod Collect
pub mod OneWay
pub mod TwoWay
pub mod Kept
pub mod Laws
pub mod Dry
use ocis_cli.Base.{String, Bool, true, false, List, [], Option, none, some, if◌then◌else◌, str_eq}
use ocis_cli.Base.Result.{Result, ok, err}
use ocis_cli.Sync.Platform.{Platform}
use ocis_cli.Sync.Errors.{bidirectional}
use ocis_cli.Run.Trees.{Trees}
use ocis_cli.Run.Journal.{Recoveries}
use ocis_cli.Run.Conflicts.{Printer}
use ocis_cli.Run.Request.{Prepared, is_bidirectional}
use ocis_cli.Run.Session.Collect.{Session, Ended}
use ocis_cli.Run.Session.OneWay.{run_one_way}
use ocis_cli.Run.Session.TwoWay.{run_two_way}

-- `runPreparedSync`
unfoldable pub run_prepared_sync :
    Platform
    → {World : Type 0} → Trees World
    → Recoveries World
    → Session World
    → Printer
    → Prepared
    → World
    → Ended World
run_prepared_sync P T R S H prepared w =
    if is_bidirectional prepared.direction
    then run_two_way P T R S H prepared w
    else run_one_way P T R S prepared w
