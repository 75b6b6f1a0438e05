-- ===== src/Examples.antt =====
-- Concrete runs: the scene that they share, and each theorem with hypotheses at an input that meets
-- them.
mod Scene
mod Connections
mod Answers
mod Rooms
mod Courses
mod Boards
mod Doors
mod Quizzes
mod Accounts
mod Requests
