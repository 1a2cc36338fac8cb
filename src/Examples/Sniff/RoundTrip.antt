-- ===== src/Examples/Sniff/RoundTrip.antt =====
-- The documented form of a rule is read: "udp,DST_IP:DST_PORT_LO[-DST_PORT_HI],LOCAL_IP:LOCAL_PORT".
use lowping.Base.{ℕ, ◌∷◌, ◌++◌, Option, none, some}
use lowping.Base.Bytes.{Bytes}
use lowping.Net.Show.{show_nat}

-- The ports, printed: one port alone where the range has no end of its own.
abbrev pub ports_text : ℕ → Option ℕ → Bytes
ports_text lo none = show_nat lo
ports_text lo (some hi) = show_nat lo ++ (0x2D ∷ show_nat hi)

abbrev pub end_of : ℕ → Option ℕ → ℕ
end_of lo none = lo
end_of lo (some hi) = hi

abbrev pub rule_text : Bytes → Bytes → ℕ → Option ℕ → Bytes → Bytes
rule_text proto ip lo hi local =
    proto ++ (0x2C ∷ ((ip ++ (0x3A ∷ ports_text lo hi)) ++ (0x2C ∷ local)))
