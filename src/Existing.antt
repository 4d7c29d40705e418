-- ===== src/Existing.antt =====
-- The kernel modules of uprobes.existing, over `register_uprobe(struct uprobe *)`.
pub mod Probed
pub mod Common
pub mod Probe5
pub mod Probe5lim
pub mod Infos
pub mod Probe6
pub mod Rprobe6
pub mod Suicide
pub mod Pong
pub mod PongWa7
pub mod Blink
pub mod Probe5ag
