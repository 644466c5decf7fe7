-- ===== src/Server/Http/Examples.antt =====
-- The theorems on the HTTP edge at concrete requests, and tests of its functions.
use zerock.Prelude.{
  ℕ, ◌≡◌, refl, true, false, some, [], ◌∷◌, codes, text_dec, pos, ℕ_discrete, is_empty, to_lower,
  trim_space, has_byte, cut_suffix,
}
use zerock.Prelude.Strings.{trim, trim_right, lower_byte}
use zerock.Prelude.Net.{split_host_port, cut_first}
use zerock.Prelude.Assoc
use zerock.Server.Config.{Config, default_config, subdomain_of}
use zerock.Server.Tunnel.{Tunnel, Cell, new_cell, type_http, record_traffic}
use zerock.Server.Registry.{Registry, new_registry, enter, claimed}
use zerock.Server.Http.{
  Request, to_tunnel, route, route_host, normalize_host, front_end, dispatch, proxy_http, proxied,
  rewrite, emit, check_basic_auth, client_ip, header, host_only, first_address, Exchange,
  made_ready, wait_ready,
}
use zerock.Server.Http.Headers.{Forwards, wanted, front_end-Forwards}
use zerock.Server.Http.Recorder.{
  run_calls, new_recorder, total, upgraded, first_code, write_header_call, write_call, hijack_call,
  write_conn_call, run_calls_refines,
}

abbrev web : Tunnel
web = record {
  ref = 2;
  id = codes "tn_2";
  subdomain = codes "api-x";
  type = type_http;
  url = codes "https://api-x.example.com";
  public_port = pos 0;
  local_addr = codes "127.0.0.1:3000";
  token_id = codes "ab";
  token_label = codes "laptop";
  agent_host = [];
  agent_ver = [];
  remote_ip = codes "192.0.2.1";
  started_at = 5;
  basic_auth = codes "me:pa:ss";
}

abbrev cfg : Config
cfg = record default_config { domain = codes "example.com"; api_host = codes "zerock.example.com" }

abbrev one : Registry
one = enter new_registry web

abbrev asked : Request
asked = record {
  method = codes "GET";
  host = codes "API-x.Example.com:443";
  remote_addr = codes "198.51.100.7:50000";
  path = codes "/";
  raw_query = [];
  headers =
      (codes "X-Forwarded-For", codes "6.6.6.6")
      ∷ (codes "Authorization", codes "Basic bWU6cGE6c3M=")
      ∷ [];
  credentials = some (codes "me", codes "pa:ss");
}

abbrev exchange : Exchange
exchange = record { body_read = 0; written = 12; event_written = true }

abbrev cells : ℕ → Cell
cells ref = record new_cell { session = true }

forwards :
    front_end cfg one cells made_ready asked asked.headers exchange
    ≡ proxied (rewrite cfg web asked asked.headers) (emit true (record_traffic 0 12 (cells 2)))
unfolding front_end dispatch proxy_http route route_host normalize_host split_host_port
    check_basic_auth cut_first claimed enter Assoc.find Assoc.put Assoc.erase subdomain_of
    cut_suffix to_lower lower_byte trim_space trim trim_right wait_ready has_byte text_dec
    ℕ_discrete
forwards = refl

front_end-Forwards_example :
    (tun : Tunnel) × (route cfg one asked ≡ to_tunnel tun)
    × (wait_ready (cells tun.ref).ready made_ready ≡ true)
    × (is_empty tun.basic_auth ≡ false → asked.credentials ≡ some (wanted tun.basic_auth))
    × Forwards cfg tun asked asked.headers (rewrite cfg web asked asked.headers)
front_end-Forwards_example =
    front_end-Forwards cfg one cells made_ready asked asked.headers exchange
      (rewrite cfg web asked asked.headers) (emit true (record_traffic 0 12 (cells 2))) forwards

-- A header that the client forged is not believed.
client_ip_direct : client_ip cfg asked ≡ codes "198.51.100.7"
unfolding client_ip header host_only split_host_port first_address Assoc.find text_dec ℕ_discrete
    has_byte
client_ip_direct = refl

client_ip_trusted : client_ip (record cfg { trust_proxy_headers = true }) asked ≡ codes "6.6.6.6"
unfolding client_ip header host_only split_host_port first_address cut_first trim_space trim
    Assoc.find text_dec ℕ_discrete
client_ip_trusted = refl

-- An address of version 6 in brackets.
normalize_host_v6 : normalize_host (codes "[::1]:8080") ≡ codes "::1"
unfolding normalize_host split_host_port to_lower lower_byte trim_space trim has_byte
normalize_host_v6 = refl

run_calls_refines_example :
    ((run_calls
        (write_call 5 ∷ write_header_call 404 ∷ hijack_call true ∷ write_conn_call 7 ∷ [])
        new_recorder).status
      ≡ 101)
    × ((run_calls
          (write_call 5 ∷ write_header_call 404 ∷ hijack_call true ∷ write_conn_call 7 ∷ [])
          new_recorder).written
        ≡ 12)
    × ((run_calls
          (write_call 5 ∷ write_header_call 404 ∷ hijack_call true ∷ write_conn_call 7 ∷ [])
          new_recorder).sent
        ≡ 200 ∷ [])
unfolding total upgraded first_code
run_calls_refines_example =
    run_calls_refines
      (write_call 5 ∷ write_header_call 404 ∷ hijack_call true ∷ write_conn_call 7 ∷ [])
