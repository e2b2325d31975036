-- ===== src/Games.antt =====
-- src/games.c: the list of games, and the file that it is kept in.
pub mod Load
pub mod Edit
