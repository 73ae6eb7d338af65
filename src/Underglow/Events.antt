-- ===== src/Underglow/Events.antt =====
-- What a key event does to the underglow: rumcake/src/underglow/animations.rs, `register_event`.
