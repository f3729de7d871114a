-- ===== src/Sdk/Rpc.antt =====
-- `rpc` of sdk-rust/src/lib.rs.
use wasibrowser.Prelude.{ℕ, ◌%◌, ◌^◌, ◌++◌, length}
use wasibrowser.Bytes.{Bytes, u16_to_le}

abbrev pub as_u16 : ℕ → ℕ
as_u16 n = n % 2 ^ 16

-- The buffer of a call.
unfoldable pub rpc_buffer : Bytes → Bytes → Bytes → Bytes → ℕ → Bytes
rpc_buffer service iface method payload flags =
    u16_to_le (as_u16 (length service))
    ++ (u16_to_le (as_u16 (length iface))
        ++ (u16_to_le (as_u16 (length method))
            ++ (u16_to_le flags ++ (service ++ (iface ++ (method ++ payload))))))
