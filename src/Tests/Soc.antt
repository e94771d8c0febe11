-- ===== src/Tests/Soc.antt =====
-- The driver at work: a lamp is switched on and dimmed, it answers, it is bound to another.
mod Sending
mod Receiving
