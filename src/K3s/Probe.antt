-- ===== src/K3s/Probe.antt =====
-- `ServiceProbeCommand`, `ParseServiceProbe` and the two questions about its result.
use provider_k3s.Base.{Bool, ◌&&◌, not, some, none, Option, [], ◌++◌, Text, codes, ◌==◌, text_eq}
use provider_k3s.Strings.{trim_space, split_once}

pub record ServiceProbe : Type 0 where
  pub load_state : Text
  pub active_state : Text

unfoldable pub service_probe_command : Text → Text
service_probe_command service =
    codes "systemctl show -p LoadState -p ActiveState --value " ++ (service ++ codes " 2>/dev/null")

-- `lines[1]`, if the reply has a second line
abbrev pub second_line : Option Text → Text
second_line none = []
second_line (some line) = trim_space line

unfoldable pub parse_service_probe : Text → ServiceProbe
unfolding trim_space split_once
parse_service_probe stdout =
    let (first, rest) = split_once (trim_space stdout) b'\n' in
    record { load_state = trim_space first; active_state = second_line rest }

unfoldable pub exists : ServiceProbe → Bool
exists p = not (p.load_state == []) && not (p.load_state == codes "not-found")

unfoldable pub ready : ServiceProbe → Bool
ready p = p.active_state == codes "active"
