-- ===== src/Examples.antt =====
-- Runs of the definitions on concrete inputs, and the theorems applied there.
mod Encodings
mod Certificates
mod Service
mod Commands
mod Images
mod Toy
mod Signed
mod Cabinets
mod Installers
mod Stored
mod Logins
mod Exits
mod Processes
mod Responses
mod Requests
