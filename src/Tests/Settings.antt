-- ===== src/Tests/Settings.antt =====
-- Configuration files, a rule of the command line, and a scan with its suggestions.
use lowping.Base.{
  ℕ, ◌≡◌, refl, true, false, [], ◌∷◌, Option, none, some, ok, arith, if◌then◌else◌, subst, sym,
  some_injective, ◌==◌,
}
use lowping.Base.Bytes.{Bytes}
use lowping.Base.Int.{ℤ, pos}
use lowping.Base.Eq.{nat_eq, list_eq, list_beq}
use lowping.Base.Dict.{Dict, get, insert, get-insert_same}
use lowping.Net.{IpAddr, v4, v6, SocketAddr}
use lowping.Net.Show.{codes}
use lowping.Settings.Serde.{array, absent, present, Table, Formats, Toml}
use lowping.Settings.{BridgeConfig, ClientConfig, Files, load_client, save, write_client}
use lowping.Settings.RoundTrip.{load_client-save}
use lowping.Client.Modes.{Rule}
use lowping.Client.Modes.Written.{rule_tables}
use lowping.Examples.Fnscan.{Flow, flow_eq, scan}
use lowping.Tests.World.{client_addr}

abbrev shown : IpAddr → ℕ → Bytes
shown (v4 o) port = 4 ∷ port ∷ o
shown (v6 o) port = 6 ∷ port ∷ o

abbrev toy_parse_addr : Bytes → Option SocketAddr
toy_parse_addr [] = none
toy_parse_addr (kind ∷ []) = none
toy_parse_addr (kind ∷ port ∷ o) =
    if kind == 4
    then some (record { ip = v4 o; port = port })
    else some (record { ip = v6 o; port = port })

parsed :
    (ip : IpAddr) (port : ℕ)
    → toy_parse_addr (shown ip port) ≡ some (record { ip = ip; port = port })
parsed (v4 o) port = refl
parsed (v6 o) port = refl

-- Addresses with their kind and port in front, one address of a host, and floats that are integers.
abbrev toy_show_addr : SocketAddr → Bytes
toy_show_addr a = shown a.ip a.port

abbrev octets : Bytes
octets = 10 ∷ 0 ∷ 0 ∷ 1 ∷ []

abbrev toy_parse_ip : Bytes → Option IpAddr
toy_parse_ip s = some (v4 octets)

abbrev formats : Formats
formats = record {
  F64 = ℤ;
  F32 = ℤ;
  f32_zero = pos 0;
  of_f32 = λ x. x;
  to_f32 = λ x. x;
  f32_of_int = λ n. n;
  parse_addr = toy_parse_addr;
  parse_ip = toy_parse_ip;
  show_addr = toy_show_addr;
  to_f32-of_f32 = λ x. refl;
  parse_addr-show_addr = λ a. parsed a.ip a.port;
}

-- A text is its table.
abbrev toy_toml : Toml ℤ
toy_toml = record {
  Text = Table ℤ;
  from_str = λ t. some t;
  to_string_pretty = λ t. some t;
  from_str-to_string_pretty = λ t text e. sym e;
}

toy_read-write :
    (s s' : Dict Bytes (Table ℤ)) (path : Bytes) (text : Table ℤ)
    → some (insert path text s) ≡ some s'
    → get path s' ≡ some text
toy_read-write s s' path text e =
    subst (λ m. get path m ≡ some text) (some_injective (insert path text s) s' e)
      (get-insert_same path text s)

abbrev toy_files : Files (Table ℤ)
toy_files = record {
  State = Dict Bytes (Table ℤ);
  read_to_string = λ s path. get path s;
  write = λ s path text. some (insert path text s);
  read_to_string-write = toy_read-write;
}

abbrev known : BridgeConfig
known = record {
  name = codes "Frankfurt";
  endpoint = client_addr;
  bridge_pubkey_hex = 1 ∷ [];
  client_seckey_hex = 2 ∷ [];
  region = some (codes "EU");
  enabled = false;
}

abbrev client : ClientConfig formats
client = record { bridges = known ∷ []; fec_ratio = pos 2; paths = 3; ipc_pipe = codes "pipe" }

abbrev file : Bytes
file = codes "client.toml"

abbrev saved : Dict Bytes (Table ℤ)
saved = insert file (write_client formats client) []

saves : save formats toy_toml toy_files client [] file ≡ ok saved
unfolding save
saves = refl

load_client-save_example : load_client formats toy_toml toy_files saved file ≡ ok client
load_client-save_example =
    load_client-save formats toy_toml toy_files client [] saved file (omega arith) saves

-- A file with one rule, which leaves out its protocol and gives the other keys.
abbrev capture_rule : Rule
capture_rule = record {
  listen = client_addr;
  bridge = client_addr;
  bridge_x25519_pubkey_hex = 1 ∷ [];
  license_token = 2 ∷ [];
  dest_ip = v4 octets;
  dest_port = 7777;
  protocol = codes "tcp";
  udp_idle_secs = 30;
  capture = true;
  capture_dst_port_lo = some 7000;
  capture_dst_port_hi = some 7100;
  capture_dst_ip = none;
}

abbrev toy_show_ip : IpAddr → Bytes
toy_show_ip ip = []

abbrev rules_table : Table ℤ
rules_table key =
    if list_beq key (codes "rules")
    then present (array (rule_tables formats toy_show_ip (capture_rule ∷ [])))
    else absent

abbrev rules_file : Dict Bytes (Table ℤ)
rules_file = (file, rules_table) ∷ []

-- A rule of the command line, with a range of ports.
abbrev local_text : Bytes
local_text = toy_show_addr client_addr

-- A scan that saw one host at two ports, one of them twice.
abbrev seen : ℕ → Flow
seen port = record { proto = 17; remote = record { ip = v4 octets; port = port } }

abbrev scanned : Dict Flow ℕ
scanned = scan [] (some (seen 7010) ∷ none ∷ some (seen 7000) ∷ some (seen 7010) ∷ [])
