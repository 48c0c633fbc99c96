-- ===== src/Tests.antt =====
-- Runs of the model of provena-web on concrete inputs, by the parts of the program.
mod Sorting
mod Browse
mod Web
mod Api
mod Pages
mod Visits
mod Trade
