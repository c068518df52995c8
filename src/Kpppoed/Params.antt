-- ===== src/Kpppoed/Params.antt =====
-- cmd/kpppoed/kpppoed.go: the parameters of the configuration file, and the checks of `main`.
use go_l2tp_debian.Prelude.{◌≡◌, refl, List, [], ◌∷◌, if◌then◌else◌}
use go_l2tp_debian.Prelude.Result.{
  Result, ok, err, ◌>>=◌, ◌>>◌, map_ok, not_of_type, repeated_parameter, unrecognised_parameter,
  parameter_missing,
}
use go_l2tp_debian.Prelude.Bytes.{Bytes}
use go_l2tp_debian.Prelude.Text.{text}
use go_l2tp_debian.Prelude.Eq.{same, bytes_eq}
use go_l2tp_debian.Config.Types.{Value, string, array, Values, nil, cons, Table, end, entry}
use go_l2tp_debian.Config.Load.{ConfigParser, new_config}
use go_l2tp_debian.Kpppoed.State.{KpppoedConfig}

unfoldable pub iface_to_string : Value → Result Bytes
iface_to_string (string s) = ok s
iface_to_string _ = err not_of_type

-- the loop over the array
unfoldable pub each_string : Values → Result (List Bytes)
unfolding iface_to_string
each_string nil = ok []
each_string (cons v vs) = iface_to_string v >>= λ s. map_ok (λ sl. s ∷ sl) (each_string vs)

unfoldable pub iface_to_string_list : Value → Result (List Bytes)
unfolding each_string
iface_to_string_list (array vs) = each_string vs
iface_to_string_list _ = err not_of_type

-- a parameter that is given once: its value so far, and what the conversion returns
unfoldable pub once : Bytes → Result Bytes → Result Bytes
once [] r = r
once (c ∷ cs) (ok s) = err repeated_parameter
once (c ∷ cs) r = r

unfoldable pub parse_parameter : Bytes → Value → KpppoedConfig → Result KpppoedConfig
unfolding iface_to_string iface_to_string_list once
parse_parameter key v cfg =
    if same key (text "ac_name")
    then map_ok (λ n. record cfg { ac_name = n }) (once cfg.ac_name (iface_to_string v))
    else if same key (text "interface_name")
    then map_ok (λ n. record cfg { if_name = n }) (once cfg.if_name (iface_to_string v))
    else if same key (text "services")
    then map_ok (λ l. record cfg { services = l }) (iface_to_string_list v)
    else if same key (text "lns_ipaddr")
    then map_ok (λ n. record cfg { lns_ip_addr = n }) (iface_to_string v)
    else err unrecognised_parameter

abbrev pub kpppoed_parser : ConfigParser
kpppoed_parser = record {
  State = KpppoedConfig;
  parse_parameter = parse_parameter;
  parse_tunnel_parameter = λ tunnel key v cfg. err unrecognised_parameter;
  parse_session_parameter = λ tunnel session key v cfg. err unrecognised_parameter;
}

abbrev pub zero_config : KpppoedConfig
zero_config = record { ac_name = []; if_name = []; services = []; lns_ip_addr = [] }

abbrev pub has_services : List Bytes → Result (Unit {0})
has_services [] = err parameter_missing
has_services (s ∷ ss) = ok tt

abbrev pub has_text : Bytes → Result (Unit {0})
has_text [] = err parameter_missing
has_text (c ∷ cs) = ok tt

abbrev pub or_kpppoed : Bytes → Bytes
or_kpppoed [] = text "kpppoed"
or_kpppoed (c ∷ cs) = c ∷ cs

-- the checks of `main`, where `stdlog.Fatalf` is an error
unfoldable pub check_config : KpppoedConfig → Result KpppoedConfig
check_config cfg =
    has_services cfg.services
    >> has_text cfg.if_name
    >> has_text cfg.lns_ip_addr
    >> ok (record cfg { ac_name = or_kpppoed cfg.ac_name })

-- `LoadFileWithCustomParser` in `main`, on the tree of the file
unfoldable pub main_config : Table → Result KpppoedConfig
unfolding parse_parameter check_config new_config
main_config tree = new_config kpppoed_parser tree zero_config >>= λ out. check_config out.1

abbrev pub strings : List Bytes → Values
strings [] = nil
strings (s ∷ ss) = cons (string s) (strings ss)

-- the tree that describes a configuration
abbrev pub kpppoed_table : KpppoedConfig → Table
kpppoed_table cfg = entry (text "ac_name") (string cfg.ac_name) (
    entry (text "interface_name") (string cfg.if_name) (
      entry (text "services") (array (strings cfg.services))
        (entry (text "lns_ipaddr") (string cfg.lns_ip_addr) end)))

each_string-strings : (ss : List Bytes) → each_string (strings ss) ≡ ok ss
unfolding each_string
each_string-strings [] = refl
each_string-strings (s ∷ ss) = rw (each_string-strings ss)

-- The loader gives a described configuration back, and the checks of main decide on it.
pub main_config-table : (cfg : KpppoedConfig) → main_config (kpppoed_table cfg) ≡ check_config cfg
unfolding main_config
main_config-table cfg = simp (each_string-strings cfg.services)
