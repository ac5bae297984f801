-- ===== src/Runs/MkaEnds.antt =====
-- A kernel, a world and sessions of wired/mka.rs, for the tests.
use shuli.Base.{ℕ, refl, true, false, none, some, List, [], ◌∷◌, ◌++◌, replicate}
use shuli.Base.Outcome.{ok}
use shuli.Wired.Mka.Session.State.{World, Peer, MkaSession}
use shuli.Wired.Macsec.Accepts.{Accepts}
use shuli.Runs.Mka.{key16, mac_a, mac_b}
use shuli.Wired.Macsec.Desired.{Kernel, MacsecDevice}

-- A kernel that takes what it is told.
abbrev pub quiet_kernel : Kernel
quiet_kernel = record {
  apply = λ desired. ok tt;
  set_encoding_sa = λ an. ok tt;
  new_rx_sc = λ sci. record { sci = sci; active = none; sa_list = none };
}

pub quiet_kernel-Accepts : Accepts quiet_kernel
quiet_kernel-Accepts = record { applies = λ desired. refl; encodes = λ an. refl }

abbrev pub world_at : ℕ → World
world_at now = record {
  now = now;
  random_mi = some (replicate 12 3);
  random_sak = some (replicate 16 8);
  send_eapol_frame = λ frame. ok tt;
}

-- A participant of the address `mac_a`, with the other as its peer.
abbrev pub peer_of : List ℕ → List ℕ → Peer
peer_of mi mac = record {
  mi = mi;
  mn = 7;
  sci = mac ++ (0 ∷ 1 ∷ []);
  priority = 16;
  key_server = true;
  macsec_desired = true;
  macsec_capability = 2;
  live = true;
  last_seen = 0;
  rx_ready = false;
  rx_installed = false;
}

abbrev pub session_of : List ℕ → List ℕ → List Peer → MkaSession MacsecDevice
session_of mi mac peers = record {
  mac = mac;
  ckn = 9 ∷ 9 ∷ [];
  kek = key16;
  ick = key16;
  priority = 16;
  can_be_key_server = true;
  encrypt = true;
  macsec = none;
  mi = mi;
  mn = 5;
  peers = peers;
  is_key_server = true;
  key_server_sci = mac ++ (0 ∷ 1 ∷ []);
  lki = none;
  lan = 0;
  ltx = false;
  lrx = false;
  oki = none;
  oan = 0;
  otx = false;
  orx = false;
  sak = none;
  dist_sak = none;
  next_kn = 1;
  last_hello = 0;
  last_sak_time = none;
  need_send = true;
  need_new_sak = false;
}

abbrev pub mi_a : List ℕ
mi_a = replicate 12 1

abbrev pub mi_b : List ℕ
mi_b = replicate 12 2

abbrev pub first_end : MkaSession MacsecDevice
first_end = session_of mi_a mac_a (peer_of mi_b mac_b ∷ [])

abbrev pub second_end : MkaSession MacsecDevice
second_end = session_of mi_b mac_b (peer_of mi_a mac_a ∷ [])
