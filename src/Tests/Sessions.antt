-- ===== src/Tests/Sessions.antt =====
-- The theorems on the runners at a gateway that counts.
use aws_ssm_kit.Base.{ℕ, ◌+◌, ◌≡◌, refl, none, some, true, false, [], ◌∷◌, if◌then◌else◌}
use aws_ssm_kit.Base.Dict.{lookup, lookup-nil, NodupKeys, total}
use aws_ssm_kit.Errors.{ok, err, app}
use aws_ssm_kit.Errors.Typed.{Typed}
use aws_ssm_kit.Text.{codes, Text, same}
use aws_ssm_kit.Application.Env.{Ports}
use aws_ssm_kit.Application.Operations.{OperationContext}
use aws_ssm_kit.Application.Ssm.{SsmPorts, timed_out, plugin_error}
use aws_ssm_kit.Application.Ssm.Counted.{Counters, Counted}
use aws_ssm_kit.Application.Ssm.Foreground as Foreground
use aws_ssm_kit.Application.Ssm.Foreground.Balance.{run_balance}
use aws_ssm_kit.Application.Ssm.Managed as Managed
use aws_ssm_kit.Application.Ssm.Managed.{Runner}
use aws_ssm_kit.Application.Ssm.Managed.Balance.{IsBalanced}
use aws_ssm_kit.Application.Ssm.Managed.Reach.{Reaches, Reaches-IsBalanced}
use aws_ssm_kit.Application.Tunnels.Managed.{Tunnels}
use aws_ssm_kit.Application.Tunnels.Managed.Stop.{stop_all}
use aws_ssm_kit.Application.Tunnels.Managed.Cleared.{left}
use aws_ssm_kit.Application.Tunnels.Managed.Runner.{LocalPorts, runner_ports, stop_all_total}
use aws_ssm_kit.Tests.Samples.{ascii, plain, profile, db}
use aws_ssm_kit.Tests.Tunnels.{managed_tunnel, relay}

pub record Meter : Type 0 where
  pub started : ℕ
  pub ended : ℕ

-- the sessions under one id are counted
abbrev session_weight : Text → ℕ
session_weight id = if same id (codes "session") then 1 else 0

abbrev counters : Counters Meter
counters = record { weight = session_weight; started = λ w. w.started; ended = λ w. w.ended }

-- Sessions open under one id; a process runs for ever, and ignores that it is asked to end.
abbrev gateway : SsmPorts Meter
gateway = record {
  is_cancelled = λ token w. false;
  report = λ context code w. (ok tt, w);
  diagnose = λ w. (ok (record { exists = true; supported = true; environment_ready = true }), w);
  start_session = λ k region target parameters w. (
    ok (record { session_id = codes "session"; stream_url = []; token_value = [] }),
    record w { started = w.started + 1 },
  );
  end_session = λ k region id w. (ok tt, record w { ended = w.ended + session_weight id });
  run = λ invocation w. (ok 0, w);
  launch = λ invocation external w. (ok 40, w);
  pid = λ process. process;
  poll = λ process w. (ok none, w);
  wait = λ process seconds w. (ok timed_out, w);
  terminate = λ process w. (ok tt, w);
  kill = λ process w. (err (app (plugin_error "kill" "kill")), w);
}

gateway-Counted : Counted gateway counters
unfolding same
gateway-Counted = record {
  starts = λ k region target d w. (refl, refl);
  ends = λ k region id w. (refl, refl);
  report_quiet = λ o code w. (refl, refl);
  diagnose_quiet = λ w. (refl, refl);
  run_quiet = λ i w. (refl, refl);
  launch_quiet = λ i b w. (refl, refl);
  poll_quiet = λ process w. (refl, refl);
  wait_quiet = λ process seconds w. (refl, refl);
  terminate_quiet = λ process w. (refl, refl);
  kill_quiet = λ process w. (refl, refl);
}

abbrev context : OperationContext
context = record { operation_id = 5; cancellation = 0 }

abbrev still : Meter
still = record { started = 2; ended = 2 }

run_balance_example :
    let after =
      (Foreground.run gateway plain profile.region relay none context (some 3600) still).1 in
    after.started + 2 ≡ 2 + after.ended
run_balance_example =
    run_balance gateway counters gateway-Counted plain profile.region relay none context (some 3600)
      still

abbrev idle : Runner Meter
idle = record { world = still; owned = [] }

idle-IsBalanced : IsBalanced counters idle
unfolding total
idle-IsBalanced = record { once = tt; balance = refl }

abbrev opened : Runner Meter
opened = (Managed.start gateway plain profile.region relay none false context idle).1

abbrev closed : Runner Meter
closed = (Managed.stop gateway 5 (Managed.status gateway 5 opened).1).1

-- a start, a poll, and a stop of a process that cannot be killed
start_to_stop : Reaches gateway idle closed
start_to_stop =
    Reaches.starting plain profile.region relay none false context (lookup-nil 5)
      (Reaches.polling 5 (Reaches.stopping 5 Reaches.here))

Reaches-IsBalanced_example : IsBalanced counters closed
Reaches-IsBalanced_example =
    Reaches-IsBalanced gateway counters gateway-Counted idle closed start_to_stop idle-IsBalanced

abbrev local : LocalPorts Meter
local = record { is_available = λ port w. (ok true, w); list_online = λ k region w. (ok [], w) }

abbrev runner_world : Ports (Runner Meter)
runner_world = record {
  runtime = ascii;
  now = λ w. (0, w);
  new_operation_id = λ w. (9, w);
  get_identity = λ k region w. (ok (record { account_id = []; user_id = []; arn = [] }), w);
  get_session_token =
      λ k region arn code seconds w. (ok (record { credentials = plain; expires_at_utc = 0 }), w);
  protect = λ s w. (ok s, w);
  unprotect = λ s w. (ok s, w);
  write_shared = none;
}

-- The runner knows the first of the two tunnels, whose process cannot be killed.
abbrev two_tunnels : Tunnels (Runner Meter)
two_tunnels = record {
  env = record { db = db; world = opened; log = [] };
  managed = (5, managed_tunnel 1) ∷ (6, managed_tunnel 1) ∷ [];
}

tunnels_once : NodupKeys two_tunnels.managed
unfolding lookup
tunnels_once = (refl, (lookup-nil 6, tt))

stop_all_total_example :
    let after = stop_all runner_world (runner_ports gateway local) none two_tunnels in
    Typed after.0 × ((k : ℕ) → lookup k after.1.managed ≡ left none (lookup k two_tunnels.managed))
stop_all_total_example = stop_all_total gateway local runner_world none two_tunnels tunnels_once
