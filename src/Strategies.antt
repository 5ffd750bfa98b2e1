-- ===== src/Strategies.antt =====
-- The strategies: strategies/sleeve_b.py, sleeve_b_replay.py, sleeve_b_candidate_builder.py and
-- sleeve_a_scanner.py.
pub mod Signals
pub mod Scanner
pub mod Bars
pub mod Held
pub mod Replay
pub mod Series
pub mod Candidates
