-- ===== src/Gate/Tokens.antt =====
-- The tokens of the gate (internal/devserver/gate.go).
use hamr.Base.{◌&&◌, none, some, ◌≡◌, arith}
use hamr.Base.Int.{ℤ, pos, ◌-ℤ◌, leb_ℤ}
use hamr.Base.Bytes.{Bytes, cut, cut-append, eq_bytes_refl}
use hamr.Gate.{GateLibrary, gate_max_age, gate_token, gate_mac, gate_token_valid}

-- A token that `gateToken` issues for a password, when the number that stands in it is read back as it
-- was written and has no dot: `gateTokenValid` accepts it with that password exactly from the time of
-- its issue on and until seven days later, whatever the MAC.
pub gate_token_valid-gate_token :
    (lib : GateLibrary) (password : Bytes) (issued now : ℤ)
    → lib.parse_int (lib.format_int issued) ≡ some issued
    → cut 46 (lib.format_int issued) ≡ none
    → gate_token_valid lib (gate_token lib password issued) password now
      ≡ (leb_ℤ (pos 0) (now -ℤ issued) && leb_ℤ (now -ℤ issued) gate_max_age)
unfolding gate_token_valid gate_token
gate_token_valid-gate_token lib password issued now reads no_dot =
    let ts = lib.format_int issued in
    let mac = gate_mac lib password ts in
    ground (arith, reads, cut-append 46 ts mac no_dot, eq_bytes_refl mac)
