-- ===== src/Tailer/Key.antt =====
-- The containerKey of internal/tailer/manager.go, and its equality.
use grepod.Prelude.{◌≡◌, ◌↔◌, Bool, true, ◌&&◌, Text, text_beq, text_beq_iff, HasEquality, arith}

pub record ContainerKey : Type 0 where
  pub pod : Text
  pub container : Text

unfoldable pub key_beq : ContainerKey → ContainerKey → Bool
key_beq a b = text_beq a.pod b.pod && text_beq a.container b.container

pub key_beq_iff : (a b : ContainerKey) → (key_beq a b ≡ true) ↔ (a ≡ b)
unfolding key_beq
key_beq_iff a b =
    let p = text_beq_iff a.pod b.pod in
    let c = text_beq_iff a.container b.container in
    (
      λ h. λ i. record { pod = p.0 (ground arith) i; container = c.0 (ground arith) i },
      λ e. ground (arith, p.1, c.1),
    )

instance abbrev pub key_eq : HasEquality ContainerKey
key_eq = record { equal = key_beq; equal_iff = key_beq_iff }
