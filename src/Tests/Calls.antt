-- ===== src/Tests/Calls.antt =====
-- Tool calls under small approval configurations.
use sandbar.Base.{ℕ, codes, Map, lookup, str_eq, [], ◌∷◌, refl, Option, none, some, true, false}
use sandbar.Tools.Approval.{
  write, exec, allow, deny, prompt, yolo, Config, Request, config_valid, mode_valid, effective_mode,
  tool_policies_valid, tier_policies_valid, policy_valid, tier_valid,
}
use sandbar.Tools.Execute.{Tool, Context, execute}
use sandbar.Tools.Execute.Safety.{Runs, Authorized, execute-Authorized}
use sandbar.Tools.Execute.Records.{Reported}
use sandbar.Tools.Execute.Audit.{execute-Reported}

abbrev config : Config ℕ
config = record {
  mode = yolo;
  tool_policies = (codes "shell", prompt) ∷ [];
  tier_policies = (write, deny) ∷ [];
  resolver = none;
}

abbrev request : Request ℕ
request = record {
  tool = codes "shell";
  tier = exec;
  action = codes "execute";
  resource = [];
  summary = [];
  arguments = [];
  metadata_valid = true;
}

abbrev shell : Tool ℕ
shell = record {
  name = codes "shell";
  description = [];
  tier = exec;
  resolver = none;
  required = codes "command" ∷ [];
  schema_ok = λ args. true;
  executor = some (λ args. some (codes "done"));
}

abbrev context : Context ℕ
context = record { plan_mode = false; handler = some (λ req. some allow); cancelled = false }

abbrev tools : Map (Tool ℕ)
tools = (codes "shell", shell) ∷ []

abbrev arguments : Map (Option ℕ)
arguments = (codes "command", some 7) ∷ []

execute-Authorized_example :
    Runs
      (Authorized context config shell arguments)
      (execute context config tools (codes "shell") arguments).0
unfolding config_valid mode_valid effective_mode tool_policies_valid tier_policies_valid
    policy_valid tier_valid lookup str_eq
execute-Authorized_example =
    execute-Authorized (λ s. s) config refl context shell tools (codes "shell") arguments refl

execute-Reported_example :
    Reported context config shell arguments (execute context config tools (codes "shell") arguments)
unfolding lookup str_eq
execute-Reported_example =
    execute-Reported context config tools (codes "shell") arguments shell refl
